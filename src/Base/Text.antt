-- ===== src/Base/Text.antt =====
-- Go's packages strings and strconv, over the native text (a list of code points). `to_lower` maps
-- the ASCII letters only; the names that it is used on are ASCII.
pub mod Search
pub mod Split
mod Tests
use Prim.Native.Char.{Char, code}
use Prim.Native.Nat.{ℕ, zero, suc, ◌+◌, ◌-◌, ◌*◌, ◌/◌, ◌%◌}
use Prim.Native.String
use Prim.Native.String.{String}
use mathlib.Core.Bool.{Bool, true, false, ◌||◌, ◌&&◌}
use mathlib.Core.Option.{Option, none, some}
use mathlib.Core.List.{List, [], ◌∷◌}
use mattermost_mattermod.Base.Tests.{ltb, leb, nat_eq, if◌then◌else◌}

-- Concatenation of texts.
infixr 66 ◌+++◌
abbrev pub ◌+++◌ : String → String → String
s +++ t = String.◌++◌ s t

-- unicode.IsSpace
unfoldable pub is_space : Char → Bool
is_space c =
    let n = code c in
    (leb 9 n && leb n 13)
    || nat_eq n 32
    || nat_eq n 0x85
    || nat_eq n 0xa0
    || nat_eq n 0x1680
    || (leb 0x2000 n && leb n 0x200a)
    || nat_eq n 0x2028
    || nat_eq n 0x2029
    || nat_eq n 0x202f
    || nat_eq n 0x205f
    || nat_eq n 0x3000

-- strings.TrimLeftFunc and strings.TrimRightFunc
unfoldable pub trim_left : (Char → Bool) → String → String
trim_left p String.[] = String.[]
trim_left p (String.◌∷◌ c s) = if p c then trim_left p s else String.◌∷◌ c s

-- A character goes in front of what is left of the tail, unless nothing is left and it is trimmed.
trim_cons : (Char → Bool) → Char → String → String
trim_cons p c String.[] = if p c then String.[] else String.◌∷◌ c String.[]
trim_cons p c (String.◌∷◌ d s) = String.◌∷◌ c (String.◌∷◌ d s)

unfoldable pub trim_right : (Char → Bool) → String → String
unfolding trim_cons
trim_right p String.[] = String.[]
trim_right p (String.◌∷◌ c s) = trim_cons p c (trim_right p s)

-- strings.TrimFunc
unfoldable pub trim : (Char → Bool) → String → String
unfolding trim_left trim_right
trim p s = trim_right p (trim_left p s)

-- strings.TrimSpace
unfoldable pub trim_space : String → String
unfolding trim is_space
trim_space s = trim is_space s

-- strings.HasPrefix
unfoldable pub has_prefix : String → String → Bool
has_prefix s String.[] = true
has_prefix String.[] (String.◌∷◌ d t) = false
has_prefix (String.◌∷◌ c s) (String.◌∷◌ d t) = nat_eq (code c) (code d) && has_prefix s t

-- `s[strings.Index(s, t):]`; `none` where the index is -1, and the slice panics.
unfoldable pub from_index : String → String → Option String
unfolding has_prefix
from_index String.[] t = if has_prefix String.[] t then some String.[] else none
from_index (String.◌∷◌ c s) t =
    if has_prefix (String.◌∷◌ c s) t then some (String.◌∷◌ c s) else from_index s t

-- strings.Contains
unfoldable pub contains : String → String → Bool
unfolding has_prefix
contains String.[] t = has_prefix String.[] t
contains (String.◌∷◌ c s) t = has_prefix (String.◌∷◌ c s) t || contains s t

drop_prefix : String → String → Option String
drop_prefix s String.[] = some s
drop_prefix String.[] (String.◌∷◌ d t) = none
drop_prefix (String.◌∷◌ c s) (String.◌∷◌ d t) =
    if nat_eq (code c) (code d) then drop_prefix s t else none

-- strings.TrimPrefix
unfoldable pub trim_prefix : String → String → String
unfolding drop_prefix
trim_prefix s t = elim (drop_prefix s t) [ none ↦ s | some r ↦ r ]

-- Is the first text the second?
same : String → String → Bool
same String.[] String.[] = true
same String.[] (String.◌∷◌ d t) = false
same (String.◌∷◌ c s) String.[] = false
same (String.◌∷◌ c s) (String.◌∷◌ d t) = nat_eq (code c) (code d) && same s t

-- strings.TrimSuffix
unfoldable pub trim_suffix : String → String → String
unfolding same
trim_suffix String.[] t = String.[]
trim_suffix (String.◌∷◌ c s) t =
    if same (String.◌∷◌ c s) t then String.[] else String.◌∷◌ c (trim_suffix s t)

-- The character goes in front of the first part.
cons_part : Char → List String → List String
cons_part c [] = String.◌∷◌ c String.[] ∷ []
cons_part c (p ∷ ps) = String.◌∷◌ c p ∷ ps

-- strings.Split at a separator of one character, given by its code.
unfoldable pub split : String → ℕ → List String
unfolding cons_part
split String.[] sep = String.[] ∷ []
split (String.◌∷◌ c s) sep =
    let rest = split s sep in if nat_eq (code c) sep then String.[] ∷ rest else cons_part c rest

-- strings.SplitN(s, sep, 2): the parts before and after the first separator.
unfoldable pub split2 : String → ℕ → String × Option String
split2 String.[] sep = (String.[], none)
split2 (String.◌∷◌ c s) sep =
    let rest = split2 s sep in
    if nat_eq (code c) sep then (String.[], some s) else (String.◌∷◌ c rest.0, rest.1)

count : String → ℕ
count String.[] = 0
count (String.◌∷◌ c s) = suc (count s)

-- The loop of strings.ReplaceAll: the number says how much of a replaced occurrence is left.
replace_from : ℕ → String → String → String → String
unfolding has_prefix count
replace_from k String.[] old new = String.[]
replace_from (suc k) (String.◌∷◌ c s) old new = replace_from k s old new
replace_from zero (String.◌∷◌ c s) old new =
    let replaced = String.◌++◌ new (replace_from (count old - 1) s old new) in
    let kept = String.◌∷◌ c (replace_from 0 s old new) in
    if has_prefix (String.◌∷◌ c s) old then replaced else kept

-- strings.ReplaceAll, of a text that is not empty.
unfoldable pub replace_all : String → String → String → String
unfolding replace_from
replace_all s old new = replace_from 0 s old new

-- strings.Join
unfoldable pub join : List String → String → String
join [] sep = ""
join (p ∷ []) sep = p
join (p ∷ q ∷ ps) sep = String.◌++◌ p (String.◌++◌ sep (join (q ∷ ps) sep))

digit : ℕ → String
digit n =
    if nat_eq n 0
    then "0"
    else if nat_eq n 1
    then "1"
    else if nat_eq n 2
    then "2"
    else if nat_eq n 3
    then "3"
    else if nat_eq n 4
    then "4"
    else if nat_eq n 5
    then "5"
    else if nat_eq n 6
    then "6"
    else if nat_eq n 7
    then "7"
    else if nat_eq n 8
    then "8"
    else "9"

itoa_from : ℕ → ℕ → String
unfolding digit
itoa_from zero n = ""
itoa_from (suc f) n =
    let tens = String.◌++◌ (itoa_from f (n / 10)) (digit (n % 10)) in
    if ltb n 10 then digit n else tens

-- strconv.Itoa of a number that is not negative.
unfoldable pub itoa : ℕ → String
unfolding itoa_from
itoa n = itoa_from (suc n) n

atoi_from : ℕ → String → Option ℕ
atoi_from n String.[] = some n
atoi_from n (String.◌∷◌ c s) =
    let d = code c in
    let rest = atoi_from (n * 10 + (d - b'0')) s in if leb b'0' d && leb d b'9' then rest else none

-- strconv.Atoi of a text without a sign; `none` where it fails.
unfoldable pub atoi : String → Option ℕ
unfolding atoi_from
atoi String.[] = none
atoi (String.◌∷◌ c s) = atoi_from 0 (String.◌∷◌ c s)

-- The letter of the second alphabet that stands where `c` stands in the first.
map_char : Char → String → String → Char
map_char c String.[] to = c
map_char c (String.◌∷◌ a from) String.[] = c
map_char c (String.◌∷◌ a from) (String.◌∷◌ b to) =
    if nat_eq (code c) (code a) then b else map_char c from to

abbrev upper_letters : String
upper_letters = "ABCDEFGHIJKLMNOPQRSTUVWXYZ"

abbrev lower_letters : String
lower_letters = "abcdefghijklmnopqrstuvwxyz"

-- strings.ToLower
unfoldable pub to_lower : String → String
unfolding map_char
to_lower String.[] = String.[]
to_lower (String.◌∷◌ c s) = String.◌∷◌ (map_char c upper_letters lower_letters) (to_lower s)
