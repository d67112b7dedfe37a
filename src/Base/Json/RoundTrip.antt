-- ===== src/Base/Json/RoundTrip.antt =====
-- json.Unmarshal reads back what json.Marshal prints.
use Prim.Native.String.{String}
use mathlib.Core.Path.{◌≡◌, refl, ap, ◌∙◌}
use mathlib.Core.Option.{Option, none, some}
use mathlib.Core.List.{List, [], ◌∷◌, ◌++◌, map}
use mathlib.Core.List as L
use text.Mathlib.TextLemmas.{nil-append, cons-append, append_assoc, append-nil}
use mattermost_mattermod.Base.Tests.{value_or}
use mattermost_mattermod.Base.Text.{◌+++◌}
use mattermost_mattermod.Base.Json.Lexer.{
  Token, Place, Mode, put, flush, goto, emit, step_between, step_word, step_inside, step, step_on,
  run, finished, lex,
}
use mattermost_mattermod.Base.Json.Escapes.{run-append_through, Reads-escape}
use mattermost_mattermod.Base.Json.{
  escape, escape_all, quote, marshal_rest, marshal, unmarshal, elements, decode_tokens, decode_into,
  element, cons_element,
}

run-escape_all :
    (t s : String) (ts : List Token)
    → run (goto (Mode.inside s none Place.plain) ts) (escape_all t)
      ≡ goto (Mode.inside (s +++ t) none Place.plain) ts
unfolding escape_all run put
run-escape_all String.[] s ts = rw (append-nil s) refl
run-escape_all (String.◌∷◌ c t) s ts =
    run-append_through _ _ _ (escape c) (escape_all t) (Reads-escape c s ts)
      (run-escape_all t (put s c) ts)
    ∙ ap (λ u. goto (Mode.inside u none Place.plain) ts)
        (append_assoc s (String.◌∷◌ c String.[]) t
          ∙ ap (λ u. s +++ u) (cons-append c String.[] t ∙ ap (λ u. String.◌∷◌ c u) (nil-append t)))

-- The lexer reads a quoted text as a token.
run-quote :
    (t : String) (ts : List Token) → run (goto Mode.between ts) (quote t) ≡ emit (Token.text t) ts
unfolding quote run step_on step step_between step_inside goto flush emit
run-quote t ts = run-append_through (goto Mode.between ts) _ _ "\"" (escape_all t +++ "\"") refl (
    run-append_through (goto (Mode.inside "" none Place.plain) ts) _ _ (escape_all t) "\""
      (run-escape_all t "" ts) (ap (λ u. emit (Token.text u) ts) (nil-append t)))

-- The tokens of what follows the first element.
tokens_rest : List String → List Token
tokens_rest [] = Token.end_array ∷ []
tokens_rest (x ∷ xs) = Token.comma ∷ Token.text x ∷ tokens_rest xs

run-marshal_rest :
    (xs : List String) (ts : List Token)
    → run (goto Mode.between ts) (marshal_rest xs) ≡ goto Mode.between (ts ++ tokens_rest xs)
unfolding marshal_rest tokens_rest run step_on step step_between goto emit
run-marshal_rest [] ts = refl
run-marshal_rest (x ∷ xs) ts =
    run-append_through (goto Mode.between ts) _ _ "," (quote x +++ marshal_rest xs) refl (
      run-append_through (goto Mode.between (ts ++ Token.comma ∷ [])) _ _ (quote x)
        (marshal_rest xs) (run-quote x (ts ++ Token.comma ∷ []))
        (run-marshal_rest xs ((ts ++ Token.comma ∷ []) ++ Token.text x ∷ [])))
    ∙ ap (goto Mode.between) (
        ap (λ us. us ++ tokens_rest xs) (L.append_assoc ts (Token.comma ∷ []) (Token.text x ∷ []))
        ∙ L.append_assoc ts (Token.comma ∷ Token.text x ∷ []) (tokens_rest xs))

elements-tokens_rest :
    (x : String) (xs : List String)
    → elements (Token.text x ∷ tokens_rest xs) ≡ some (map some (x ∷ xs))
unfolding elements element cons_element tokens_rest
elements-tokens_rest x [] = refl
elements-tokens_rest x (y ∷ ys) = ap (cons_element (some (some x))) (elements-tokens_rest y ys)

decode_into-some : (old xs : List String) → decode_into old (map some xs) ≡ xs
unfolding decode_into
decode_into-some old [] = refl
decode_into-some [] (x ∷ xs) = ap (λ ys. x ∷ ys) (decode_into-some [] xs)
decode_into-some (s ∷ old) (x ∷ xs) = ap (λ ys. x ∷ ys) (decode_into-some old xs)

-- What decoding makes of the elements that were found.
decode_found : Option (List String) → Option (List (Option String)) → Option (Option (List String))
decode_found old o = elim o [
  | none ↦ none
  | some xs ↦ some (some (decode_into (value_or [] old) xs))
]

decode-array :
    (old : Option (List String)) (x : String) (xs : List String)
    → decode_tokens old (Token.begin_array ∷ Token.text x ∷ tokens_rest xs) ≡ some (some (x ∷ xs))
unfolding decode_tokens decode_found
decode-array old x xs =
    ap (decode_found old) (elements-tokens_rest x xs)
    ∙ ap (λ ys. some (some ys)) (decode_into-some (value_or [] old) (x ∷ xs))

-- The lexer reads what is printed of a slice that is not empty.
run-marshal :
    (x : String) (xs : List String)
    → run (goto Mode.between []) (marshal (some (x ∷ xs)))
      ≡ goto Mode.between (Token.begin_array ∷ Token.text x ∷ tokens_rest xs)
unfolding marshal run step_on step step_between goto emit
run-marshal x xs =
    run-append_through (goto Mode.between []) _ _ "[" (quote x +++ marshal_rest xs) refl (
      run-append_through (goto Mode.between (Token.begin_array ∷ [])) _ _ (quote x) _
        (run-quote x (Token.begin_array ∷ []))
        (run-marshal_rest xs (Token.begin_array ∷ Token.text x ∷ [])))

read_tokens : Option (List String) → Option (List Token) → Option (Option (List String))
read_tokens old o = elim o [ none ↦ none | some ts ↦ decode_tokens old ts ]

pub unmarshal-marshal : (old sa : Option (List String)) → unmarshal old (marshal sa) ≡ some sa
unfolding unmarshal lex finished decode_tokens marshal run step_on step step_between step_word goto
    emit read_tokens
unmarshal-marshal old none = refl
unmarshal-marshal old (some []) = refl
unmarshal-marshal old (some (x ∷ xs)) =
    ap (λ o. read_tokens old (finished o)) (run-marshal x xs) ∙ decode-array old x xs
