-- ===== src/Base/Json/Escapes.antt =====
-- The lexer reads a character from what json.Marshal prints for it.
use Prim.Native.Char.{Char, code}
use Prim.Native.Nat.{ℕ, ◌+◌, ◌*◌, ◌/◌, ◌%◌}
use Prim.Native.String.{String}
use mathlib.Core.Path.{◌≡◌, refl, ap, subst, ◌∙◌}
use mathlib.Core.Bool.{Bool, true, false}
use mathlib.Core.Logic.{inl, inr}
use mathlib.Core.Option.{Option, none, some}
use mathlib.Core.List.{List}
use native.Mathlib.Omega.{arith}
use text.Mathlib.TextLemmas.{nil-append, cons-append}
use text.Mathlib.TextEquality.{Char-path}
use mattermost_mattermod.Base.Tests.{ltb, nat_eq, if◌then◌else◌, Bool-cases}
use mattermost_mattermod.Base.Text.{◌+++◌}
use mattermost_mattermod.Base.Json.Chars.{char_of, char_of-code, code-char_of}
use mattermost_mattermod.Base.Json.Lexer.{
  Token, Place, Mode, Lexer, put, flush, hex_value, escaped, put_code, put_digit, goto, emit,
  step_inside, step, step_on, run,
}
use mattermost_mattermod.Base.Json.{hex_digit, escape}

-- The lexer reads a text part by part.
run-append : (o : Option Lexer) (s t : String) → run o (s +++ t) ≡ run (run o s) t
unfolding run
run-append o String.[] t = rw (nil-append t) refl
run-append o (String.◌∷◌ c s) t = rw (cons-append c s t) (run-append (step_on o c) s t)

-- What the lexer reads of two texts it reads of them together.
pub run-append_through :
    (o p q : Option Lexer) (s t : String) → run o s ≡ p → run p t ≡ q → run o (s +++ t) ≡ q
run-append_through o p q s t h g = run-append o s t ∙ ap (λ l. run l t) h ∙ g

-- A number below 16, as the digit of it is read.
hex_value-hex_digit : (n : ℕ) → ltb n 16 ≡ true → hex_value (code (hex_digit n)) ≡ some n
unfolding hex_digit hex_value
hex_value-hex_digit n h = elim (Bool-cases (ltb n 10)) [
  | inl small ↦ rw (small, code-char_of (48 + n) (ground arith)) (ground arith)
  | inr large ↦ rw (large, code-char_of (87 + n) (ground arith)) (ground arith)
]

-- The two halves of a number below 32.
high_digit : (n : ℕ) → ltb n 32 ≡ true → ltb (n / 16) 16 ≡ true
high_digit n h = ground arith

low_digit : (n : ℕ) → ltb (n % 16) 16 ≡ true
low_digit n = ground arith

run-zeros :
    (s : String) (ts : List Token)
    → run (goto (Mode.inside s none Place.plain) ts) "\\u00"
      ≡ goto (Mode.inside s none (Place.digits 1 0)) ts
unfolding run step_on step step_inside goto put_digit hex_value
run-zeros s ts = refl

step-digit :
    (a : Char) (x v w k : ℕ) (s : String) (h : Option ℕ) (ts : List Token)
    → hex_value (code a) ≡ some x
    → v * 16 + x ≡ w
    → step_on (goto (Mode.inside s h (Place.digits k v)) ts) a ≡ goto (put_digit s h k w) ts
unfolding step_on step step_inside goto
step-digit a x v w k s h ts e f = ap next e ∙ ap (λ m. goto (put_digit s h k m) ts) f
  where
    next : Option ℕ → Option Lexer
    next o = elim o [ none ↦ none | some d ↦ goto (put_digit s h k (v * 16 + d)) ts ]

-- The last two of four digits.
run-digits :
    (a b : Char) (x y : ℕ) (s : String) (ts : List Token)
    → hex_value (code a) ≡ some x
    → hex_value (code b) ≡ some y
    → run (goto (Mode.inside s none (Place.digits 1 0)) ts) (String.◌∷◌ a (String.◌∷◌ b String.[]))
      ≡ goto (put_code s none (x * 16 + y)) ts
unfolding run put_digit
run-digits a b x y s ts h g =
    ap (λ l. step_on l b) (step-digit a x 0 x 1 s none ts h (omega arith))
    ∙ step-digit b y x (x * 16 + y) 0 s none ts g refl

-- The code of a control character is put as the character.
put_code-control :
    (c : Char) (s : String) (n : ℕ)
    → n ≡ code c
    → ltb (code c) 32 ≡ true
    → put_code s none n ≡ Mode.inside (put s c) none Place.plain
unfolding put_code
put_code-control c s n e h = rw (e, char_of-code c) (ground arith)

-- A control character comes back from its number.
run-escape_control :
    (c : Char) (s : String) (ts : List Token)
    → ltb (code c) 32 ≡ true
    → run (goto (Mode.inside s none Place.plain) ts) (
        "\\u00"
        +++ String.◌∷◌ (hex_digit (code c / 16)) (String.◌∷◌ (hex_digit (code c % 16)) String.[]))
      ≡ goto (Mode.inside (put s c) none Place.plain) ts
run-escape_control c s ts h = run-append_through _ _ _ "\\u00" _ (run-zeros s ts) (
    run-digits _ _ (code c / 16) (code c % 16) s ts (hex_value-hex_digit _ (high_digit (code c) h))
      (hex_value-hex_digit _ (low_digit (code c)))
    ∙ ap (λ m. goto m ts) (put_code-control c s _ (omega arith) h))

-- Where the lexer stands in a text with the character, or reads what stands for it.
abbrev pub Reads : Char → String → Type 0
Reads c t =
    (s : String) (ts : List Token)
    → run (goto (Mode.inside s none Place.plain) ts) t
      ≡ goto (Mode.inside (put s c) none Place.plain) ts

Reads-if :
    (c : Char) (b : Bool) (t u : String)
    → (b ≡ true → Reads c t)
    → (b ≡ false → Reads c u)
    → Reads c (if b then t else u)
Reads-if c true t u f g = f refl
Reads-if c false t u f g = g refl

-- An escape of one character, in front of those of the others.
Reads-test :
    (c d : Char) (t u : String)
    → Reads d t
    → (nat_eq (code c) (code d) ≡ false → Reads c u)
    → Reads c (if nat_eq (code c) (code d) then t else u)
Reads-test c d t u r f =
    Reads-if c (nat_eq (code c) (code d)) t u
      (λ h. subst (λ e. Reads e t) (Char-path d c (ground arith)) r) f

Reads-plain :
    (c : Char)
    → nat_eq (code c) b'"' ≡ false
    → nat_eq (code c) b'\\' ≡ false
    → ltb (code c) 0x20 ≡ false
    → Reads c (String.◌∷◌ c String.[])
unfolding run step_on step step_inside goto flush
Reads-plain c h g e s ts = rw (h, g, e) refl

-- The lexer reads a character from what stands for it.
pub Reads-escape : (c : Char) → Reads c (escape c)
unfolding escape run step_on step step_inside goto flush put_digit put_code put escaped hex_value
    char_of emit
Reads-escape c =
    Reads-test c "\"" "\\\"" _ (λ s ts. refl)
      (λ quote.
        Reads-test c "\\" "\\\\" _ (λ s ts. refl)
          (λ backslash.
            Reads-test c "\n" "\\n" _ (λ s ts. refl)
              (λ newline.
                Reads-test c "\r" "\\r" _ (λ s ts. refl)
                  (λ return.
                    Reads-test c "\t" "\\t" _ (λ s ts. refl)
                      (λ tab.
                        Reads-if c (ltb (code c) 0x20) _ _ (λ h s ts. run-escape_control c s ts h)
                          (λ visible.
                            Reads-test c "<" "\\u003c" _ (λ s ts. refl)
                              (λ less.
                                Reads-test c ">" "\\u003e" _ (λ s ts. refl)
                                  (λ greater.
                                    Reads-test c "&" "\\u0026" _ (λ s ts. refl)
                                      (λ ampersand.
                                        Reads-test c "\u{2028}" "\\u2028" _ (λ s ts. refl)
                                          (λ line.
                                            Reads-test c "\u{2029}" "\\u2029" _ (λ s ts. refl)
                                              (λ paragraph.
                                                Reads-plain c quote backslash visible)))))))))))
