-- ===== src/Base/Json/Chars.antt =====
-- The character of a number: Go's conversion of a rune to a text.
use Prim.Native.Char.{Char, char, code, IsLt, IsScalar}
use Prim.Native.Nat.{ℕ, Ordering, compare}
use mathlib.Core.Path.{◌≡◌, refl, ap}
use mathlib.Core.Bool.{true}
use native.Mathlib.Omega.{arith}
use mathlib.Core.Option.{Option, none, some}
use text.Mathlib.TextEquality.{Char-path}
use mattermost_mattermod.Base.Tests.{ltb}

-- The two tests of `IsScalar`, at the outcomes of its comparisons.
abbrev Both : Ordering → Ordering → Type 0
Both Ordering.lt o = IsLt o
Both Ordering.eq o = ⊥
Both Ordering.gt o = ⊥

abbrev Scalar : Ordering → Ordering → Ordering → Type 0
Scalar Ordering.lt o p = Unit
Scalar Ordering.eq o p = Both o p
Scalar Ordering.gt o p = Both o p

decide_lt : (o : Ordering) → Option (IsLt o)
decide_lt Ordering.lt = some tt
decide_lt Ordering.eq = none
decide_lt Ordering.gt = none

decide_both : (o p : Ordering) → Option (Both o p)
unfolding decide_lt
decide_both Ordering.lt p = decide_lt p
decide_both Ordering.eq p = none
decide_both Ordering.gt p = none

decide_scalar : (o p q : Ordering) → Option (Scalar o p q)
unfolding decide_both
decide_scalar Ordering.lt p q = some tt
decide_scalar Ordering.eq p q = decide_both p q
decide_scalar Ordering.gt p q = decide_both p q

-- The replacement character stands for a number that is no scalar value.
scalar_or : (n : ℕ) → Option (IsScalar n) → Char
scalar_or n none = "�"
scalar_or n (some p) = char n p

unfoldable pub char_of : ℕ → Char
unfolding decide_scalar scalar_or
char_of n = scalar_or n (decide_scalar (compare n 55296) (compare 57343 n) (compare n 1114112))

decide_both-some : (o p : Ordering) → Both o p → (b : Both o p) × (decide_both o p ≡ some b)
unfolding decide_both decide_lt
decide_both-some Ordering.lt Ordering.lt b = (tt, refl)
decide_both-some Ordering.lt Ordering.eq b = absurd b
decide_both-some Ordering.lt Ordering.gt b = absurd b
decide_both-some Ordering.eq p b = absurd b
decide_both-some Ordering.gt p b = absurd b

decide_scalar-some :
    (o p q : Ordering) → Scalar o p q → (s : Scalar o p q) × (decide_scalar o p q ≡ some s)
unfolding decide_scalar
decide_scalar-some Ordering.lt p q s = (tt, refl)
decide_scalar-some Ordering.eq p q s = decide_both-some p q s
decide_scalar-some Ordering.gt p q s = decide_both-some p q s

pub char_of-code : (c : Char) → char_of (code c) ≡ c
unfolding char_of scalar_or
char_of-code (char n p) =
    let d = decide_scalar-some (compare n 55296) (compare 57343 n) (compare n 1114112) p in
    rw d.1 (Char-path (char n d.0) (char n p) refl)

-- Below the surrogates every number is a scalar value.
below-IsScalar : (n : ℕ) → ltb n 55296 ≡ true → IsScalar n
below-IsScalar n h = ground arith

-- Below the surrogates every number has its character.
pub code-char_of : (n : ℕ) → ltb n 55296 ≡ true → code (char_of n) ≡ n
code-char_of n h = ap code (char_of-code (char n (below-IsScalar n h)))
