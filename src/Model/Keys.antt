-- ===== src/Model/Keys.antt =====
-- The test of primary keys decides their equality.
use mattermost_mattermod.Base.{◌≡◌, ap, true, arith, eq_iff}
use mattermost_mattermod.Model.{Key, key_eq}

pub key_eq→eq : (a b : Key) → key_eq a b ≡ true → a ≡ b
unfolding key_eq
key_eq→eq a b h = ground (arith, eq_iff a.owner b.owner, eq_iff a.name b.name)

pub key_eq_refl : (a : Key) → key_eq a a ≡ true
unfolding key_eq
key_eq_refl a = ground (arith, eq_iff a.owner a.owner, eq_iff a.name a.name)

-- Equal keys pass the same tests.
pub key_eq_left : (a b k : Key) → key_eq a b ≡ true → key_eq a k ≡ key_eq b k
key_eq_left a b k h = ap (λ c. key_eq c k) (key_eq→eq a b h)

-- Two keys that equal a third are equal.
pub key_eq_join : (a b k : Key) → key_eq a k ≡ true → key_eq b k ≡ true → key_eq a b ≡ true
key_eq_join a b k h g = rw (key_eq→eq a k h, key_eq→eq b k g) (key_eq_refl k)
