-- ===== src/Base/Json/Lexer.antt =====
-- The tokens of a JSON text that is null or an array of texts and nulls, one character at a time, as
-- the scanner of encoding/json goes through it, with the escapes decoded as its `unquote` does.
use Prim.Native.Char.{Char, code}
use Prim.Native.Nat.{ℕ, zero, suc, ◌+◌, ◌-◌, ◌*◌}
use Prim.Native.String.{String}
use mathlib.Core.Bool.{Bool, ◌||◌, ◌&&◌}
use mathlib.Core.Option.{Option, none, some}
use mathlib.Core.List.{List, [], ◌∷◌, ◌++◌}
use mattermost_mattermod.Base.Tests.{ltb, leb, nat_eq, if◌then◌else◌}
use mattermost_mattermod.Base.Text.{◌+++◌}
use mattermost_mattermod.Base.Json.Chars.{char_of}

pub data Token : Type 0 where
  null begin_array end_array comma : Token
  text : String → Token

-- Where the lexer stands in a text: at a character, behind a backslash, or in front of a hexadecimal
-- digit and that many more, with the value of those read.
pub data Place : Type 0 where
  plain backslash : Place
  digits : ℕ → ℕ → Place

-- Where the lexer stands: between tokens, in front of the rest of the word null, or in a text of
-- which it has read the first part, and perhaps the first half of a surrogate pair behind that.
pub data Mode : Type 0 where
  between : Mode
  word : String → Mode
  inside : String → Option ℕ → Place → Mode

pub record Lexer : Type 0 where
  pub mode : Mode
  pub tokens : List Token

-- The text with one more character.
unfoldable pub put : String → Char → String
put s c = s +++ String.◌∷◌ c String.[]

-- A half of a surrogate pair that stays alone is replaced.
unfoldable pub flush : Option ℕ → String → String
unfolding put char_of
flush none s = s
flush (some h) s = put s (char_of 0xfffd)

unfoldable pub hex_value : ℕ → Option ℕ
hex_value n =
    if leb b'0' n && leb n b'9'
    then some (n - b'0')
    else if leb b'a' n && leb n b'f'
    then some (n - 87)
    else if leb b'A' n && leb n b'F'
    then some (n - 55)
    else none

-- The character that stands for a letter behind a backslash.
unfoldable pub escaped : ℕ → Option Char
unfolding char_of
escaped n =
    if nat_eq n b'"' || nat_eq n b'\\' || nat_eq n b'/'
    then some (char_of n)
    else if nat_eq n b'b'
    then some (char_of 8)
    else if nat_eq n b'f'
    then some (char_of 12)
    else if nat_eq n b'n'
    then some (char_of 10)
    else if nat_eq n b'r'
    then some (char_of 13)
    else if nat_eq n b't'
    then some (char_of 9)
    else none

abbrev is_high : ℕ → Bool
is_high v = leb 0xd800 v && ltb v 0xdc00

abbrev is_low : ℕ → Bool
is_low v = leb 0xdc00 v && ltb v 0xe000

-- A number of four digits was read.
unfoldable pub put_code : String → Option ℕ → ℕ → Mode
unfolding flush put char_of
put_code s none v =
    if is_high v
    then Mode.inside s (some v) Place.plain
    else Mode.inside (put s (char_of v)) none Place.plain
put_code s (some h) v =
    if is_high v
    then Mode.inside (flush (some h) s) (some v) Place.plain
    else if is_low v
    then Mode.inside (put s (char_of (((h - 0xd800) * 0x400 + (v - 0xdc00)) + 0x10000))) none
        Place.plain
    else Mode.inside (put (flush (some h) s) (char_of v)) none Place.plain

unfoldable pub put_digit : String → Option ℕ → ℕ → ℕ → Mode
unfolding put_code
put_digit s h zero v = put_code s h v
put_digit s h (suc k) v = Mode.inside s h (Place.digits k v)

-- The lexer in the mode, with the same tokens.
unfoldable pub goto : Mode → List Token → Option Lexer
goto m ts = some (record { mode = m; tokens = ts })

-- The lexer between tokens, with one token more.
unfoldable pub emit : Token → List Token → Option Lexer
emit t ts = some (record { mode = Mode.between; tokens = ts ++ t ∷ [] })

unfoldable pub step_between : Char → List Token → Option Lexer
unfolding emit goto
step_between c ts =
    let n = code c in
    if nat_eq n 32 || nat_eq n 9 || nat_eq n 10 || nat_eq n 13
    then goto Mode.between ts
    else if nat_eq n b'['
    then emit Token.begin_array ts
    else if nat_eq n b']'
    then emit Token.end_array ts
    else if nat_eq n b','
    then emit Token.comma ts
    else if nat_eq n b'"'
    then goto (Mode.inside "" none Place.plain) ts
    else if nat_eq n b'n'
    then goto (Mode.word "ull") ts
    else none

unfoldable pub step_word : String → Char → List Token → Option Lexer
unfolding emit goto
step_word String.[] c ts = none
step_word (String.◌∷◌ d String.[]) c ts =
    if nat_eq (code c) (code d) then emit Token.null ts else none
step_word (String.◌∷◌ d (String.◌∷◌ e w)) c ts =
    if nat_eq (code c) (code d) then goto (Mode.word (String.◌∷◌ e w)) ts else none

unfoldable pub step_inside : String → Option ℕ → Place → Char → List Token → Option Lexer
unfolding emit goto flush put put_digit hex_value escaped
step_inside s h Place.plain c ts =
    let n = code c in
    if nat_eq n b'"'
    then emit (Token.text (flush h s)) ts
    else if nat_eq n b'\\'
    then goto (Mode.inside s h Place.backslash) ts
    else if ltb n 0x20
    then none
    else goto (Mode.inside (put (flush h s) c) none Place.plain) ts
step_inside s h Place.backslash c ts =
    if nat_eq (code c) b'u'
    then goto (Mode.inside s h (Place.digits 3 0)) ts
    else elim (escaped (code c)) [
      | none ↦ none
      | some d ↦ goto (Mode.inside (put (flush h s) d) none Place.plain) ts
    ]
step_inside s h (Place.digits k v) c ts = elim (hex_value (code c)) [
  | none ↦ none
  | some d ↦ goto (put_digit s h k (v * 16 + d)) ts
]

unfoldable pub step : Mode → Char → List Token → Option Lexer
unfolding step_between step_word step_inside
step Mode.between c ts = step_between c ts
step (Mode.word w) c ts = step_word w c ts
step (Mode.inside s h p) c ts = step_inside s h p c ts

unfoldable pub step_on : Option Lexer → Char → Option Lexer
unfolding step
step_on none c = none
step_on (some l) c = step l.mode c l.tokens

-- The lexer goes over the text.
unfoldable pub run : Option Lexer → String → Option Lexer
unfolding step_on
run o String.[] = o
run o (String.◌∷◌ c s) = run (step_on o c) s

-- The tokens, where the text ends between two of them.
unfoldable pub finished : Option Lexer → Option (List Token)
finished none = none
finished (some l) = elim l.mode [
  | Mode.between ↦ some l.tokens
  | Mode.word w ↦ none
  | Mode.inside s h p ↦ none
]

unfoldable pub lex : String → Option (List Token)
unfolding run finished goto
lex s = finished (run (goto Mode.between []) s)
