-- ===== src/Base/Json.antt =====
-- Go's package encoding/json on a slice of strings, over the native text: what json.Marshal prints,
-- and what json.Unmarshal reads back. The bytes are valid UTF-8, given as their code points.
pub mod Lexer
pub mod Chars
pub mod Escapes
pub mod RoundTrip
use Chars.{char_of}
use Prim.Native.Char.{Char, code}
use Prim.Native.Nat.{ℕ, ◌+◌, ◌/◌, ◌%◌}
use Prim.Native.String
use Prim.Native.String.{String}
use mathlib.Core.Option.{Option, none, some}
use mathlib.Core.List.{List, [], ◌∷◌}
use mattermost_mattermod.Base.Tests.{ltb, nat_eq, if◌then◌else◌, value_or}
use mattermost_mattermod.Base.Text.{◌+++◌}
use Lexer.{Token, lex}

-- The hexadecimal digit of a number below 16, in lower case.
unfoldable pub hex_digit : ℕ → Char
unfolding char_of
hex_digit n = if ltb n 10 then char_of (48 + n) else char_of (87 + n)

-- The body of encodeState.string with the HTML characters escaped, for one character.
unfoldable pub escape : Char → String
unfolding hex_digit
escape c =
    let n = code c in
    let low = String.◌∷◌ (hex_digit (n % 16)) String.[] in
    if nat_eq n b'"'
    then "\\\""
    else if nat_eq n b'\\'
    then "\\\\"
    else if nat_eq n 10
    then "\\n"
    else if nat_eq n 13
    then "\\r"
    else if nat_eq n 9
    then "\\t"
    else if ltb n 0x20
    then "\\u00" +++ String.◌∷◌ (hex_digit (n / 16)) low
    else if nat_eq n b'<'
    then "\\u003c"
    else if nat_eq n b'>'
    then "\\u003e"
    else if nat_eq n b'&'
    then "\\u0026"
    else if nat_eq n 0x2028
    then "\\u2028"
    else if nat_eq n 0x2029
    then "\\u2029"
    else String.◌∷◌ c String.[]

unfoldable pub escape_all : String → String
unfolding escape
escape_all String.[] = ""
escape_all (String.◌∷◌ c s) = escape c +++ escape_all s

unfoldable pub quote : String → String
unfolding escape_all
quote s = "\"" +++ (escape_all s +++ "\"")

-- The elements behind the first one, and the end of the array.
unfoldable pub marshal_rest : List String → String
unfolding quote
marshal_rest [] = "]"
marshal_rest (x ∷ xs) = "," +++ (quote x +++ marshal_rest xs)

-- json.Marshal of a slice of strings, which may be nil.
unfoldable pub marshal : Option (List String) → String
unfolding marshal_rest quote
marshal none = "null"
marshal (some []) = "[]"
marshal (some (x ∷ xs)) = "[" +++ (quote x +++ marshal_rest xs)

-- An element: a text, or null.
unfoldable pub element : Token → Option (Option String)
element Token.null = some none
element (Token.text s) = some (some s)
element Token.begin_array = none
element Token.end_array = none
element Token.comma = none

-- An element goes in front of the others.
unfoldable pub cons_element :
    Option (Option String) → Option (List (Option String)) → Option (List (Option String))
cons_element none o = none
cons_element (some x) none = none
cons_element (some x) (some xs) = some (x ∷ xs)

-- The elements of an array that is not empty, up to its end.
unfoldable pub elements : List Token → Option (List (Option String))
unfolding element cons_element
elements [] = none
elements (t ∷ []) = none
elements (t ∷ Token.comma ∷ ts) = cons_element (element t) (elements ts)
elements (t ∷ Token.end_array ∷ []) = cons_element (element t) (some [])
elements (t ∷ Token.end_array ∷ u ∷ ts) = none
elements (t ∷ Token.null ∷ ts) = none
elements (t ∷ Token.text s ∷ ts) = none
elements (t ∷ Token.begin_array ∷ ts) = none

-- The slice after its elements were decoded in place: null leaves an element as it was, and an
-- element that was not there is the empty text.
unfoldable pub decode_into : List String → List (Option String) → List String
decode_into old [] = []
decode_into [] (x ∷ xs) = value_or "" x ∷ decode_into [] xs
decode_into (s ∷ old) (x ∷ xs) = value_or s x ∷ decode_into old xs

unfoldable pub decode_tokens : Option (List String) → List Token → Option (Option (List String))
unfolding elements decode_into
decode_tokens old [] = none
decode_tokens old (Token.null ∷ []) = some none
decode_tokens old (Token.null ∷ t ∷ ts) = none
decode_tokens old (Token.text s ∷ ts) = none
decode_tokens old (Token.end_array ∷ ts) = none
decode_tokens old (Token.comma ∷ ts) = none
decode_tokens old (Token.begin_array ∷ Token.end_array ∷ []) = some (some [])
decode_tokens old (Token.begin_array ∷ ts) = elim (elements ts) [
  | none ↦ none
  | some xs ↦ some (some (decode_into (value_or [] old) xs))
]

-- json.Unmarshal into a slice of strings; `none` where it returns an error: the text is no JSON
-- value, or it is neither null nor an array of texts and nulls.
unfoldable pub unmarshal : Option (List String) → String → Option (Option (List String))
unfolding decode_tokens lex
unmarshal old s = elim (lex s) [ none ↦ none | some ts ↦ decode_tokens old ts ]
