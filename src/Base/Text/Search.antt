-- ===== src/Base/Text/Search.antt =====
-- A text that is found can be sliced from where it stands, also when it is sought in the trimmed
-- text and sliced from the whole one.
use Prim.Native.Char.{Char, code}
use Prim.Native.String.{String}
use mattermost_mattermod.Base.{
  ◌≡◌, refl, Bool, true, false, ◌&&◌, ◌||◌, arith, nat_eq, if◌then◌else◌, is_some,
}
use mattermost_mattermod.Base.Text.{
  is_space, trim_left, trim_right, trim_cons, trim_space, has_prefix, contains, from_index,
}

-- `strings.Index` is not -1 exactly when `strings.Contains`.
pub from_index-contains : (s t : String) → is_some (from_index s t) ≡ contains s t
unfolding from_index contains
from_index-contains String.[] t = ground arith
from_index-contains (String.◌∷◌ c s) t = ground (arith, from_index-contains s t)

-- The last character is kept or trimmed.
last_or_none-has_prefix :
    (b : Bool) (c d : Char) (t : String)
    → has_prefix (if b then String.[] else String.◌∷◌ c String.[]) (String.◌∷◌ d t) ≡ true
    → (nat_eq (code c) (code d) && has_prefix String.[] t) ≡ true
unfolding has_prefix
last_or_none-has_prefix true c d t h = cc
last_or_none-has_prefix false c d t h = h

last_or_none-contains :
    (b : Bool) (c : Char) (t : String)
    → contains (if b then String.[] else String.◌∷◌ c String.[]) t ≡ true
    → (has_prefix (if b then String.[] else String.◌∷◌ c String.[]) t || contains String.[] t)
      ≡ true
unfolding contains
last_or_none-contains true c t h = rw h
last_or_none-contains false c t h = h

trim_cons-has_prefix :
    (p : Char → Bool) (c d : Char) (r t : String)
    → has_prefix (trim_cons p c r) (String.◌∷◌ d t) ≡ true
    → (nat_eq (code c) (code d) && has_prefix r t) ≡ true
unfolding has_prefix trim_cons
trim_cons-has_prefix p c d String.[] t h = last_or_none-has_prefix (p c) c d t h
trim_cons-has_prefix p c d (String.◌∷◌ e r) t h = h

-- What the trimmed text begins with, the text begins with.
has_prefix-trim_right :
    (p : Char → Bool) (s t : String) → has_prefix (trim_right p s) t ≡ true → has_prefix s t ≡ true
unfolding has_prefix trim_right
has_prefix-trim_right p s String.[] h = refl
has_prefix-trim_right p String.[] (String.◌∷◌ d t) h = h
has_prefix-trim_right p (String.◌∷◌ c s) (String.◌∷◌ d t) h =
    ground (arith, trim_cons-has_prefix p c d (trim_right p s) t h, has_prefix-trim_right p s t)

contains-trim_cons :
    (p : Char → Bool) (c : Char) (r t : String)
    → contains (trim_cons p c r) t ≡ true
    → (has_prefix (trim_cons p c r) t || contains r t) ≡ true
unfolding trim_cons contains
contains-trim_cons p c String.[] t h = last_or_none-contains (p c) c t h
contains-trim_cons p c (String.◌∷◌ e r) t h = h

contains-trim_right :
    (p : Char → Bool) (s t : String) → contains (trim_right p s) t ≡ true → contains s t ≡ true
unfolding contains trim_right
contains-trim_right p String.[] t h = h
contains-trim_right p (String.◌∷◌ c s) t h = ground (
  arith,
  contains-trim_cons p c (trim_right p s) t h,
  has_prefix-trim_right p (String.◌∷◌ c s) t,
  contains-trim_right p s t,
)

contains-trim_left :
    (p : Char → Bool) (s t : String) → contains (trim_left p s) t ≡ true → contains s t ≡ true
unfolding contains trim_left
contains-trim_left p String.[] t h = h
contains-trim_left p (String.◌∷◌ c s) t h = ground (arith, contains-trim_left p s t)

-- What the trimmed text contains, the text contains.
pub contains-trim_space : (s t : String) → contains (trim_space s) t ≡ true → contains s t ≡ true
unfolding trim_space
contains-trim_space s t h =
    contains-trim_left is_space s t (contains-trim_right is_space (trim_left is_space s) t h)
