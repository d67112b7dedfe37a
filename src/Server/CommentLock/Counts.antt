-- ===== src/Server/CommentLock/Counts.antt =====
-- The comment lock: how often an answer is there, and families of goroutines with one that changes.
use mattermost_mattermod.Base.{
  ℕ, ◌+◌, ◌≤◌, String, true, false, List, [], ◌∷◌, ◌++◌, ◌==◌, ◌≡◌, refl, arith, eq_iff, nat_eq,
  if◌then◌else◌, Bool-cases, inl, inr,
}
use mattermost_mattermod.Base.Text.{contains, has_prefix}
use mattermost_mattermod.Server.CommentLock.{Post, said, set, is_answer, times, occurrences}
use mathlib.Core.Path.{subst}

has_prefix_refl : (s : String) → has_prefix s s ≡ true
unfolding has_prefix
has_prefix_refl String.[] = refl
has_prefix_refl (String.◌∷◌ c s) = ground (arith, has_prefix_refl s)

contains_refl : (s : String) → contains s s ≡ true
unfolding contains
contains_refl String.[] = has_prefix_refl ""
contains_refl (String.◌∷◌ c s) = rw (has_prefix_refl (String.◌∷◌ c s)) refl

-- An answer that no comment has is not among them.
pub times-unsaid : (bot m : String) (ps : List Post) → said ps bot m ≡ false → times bot m ps ≡ 0
unfolding said times
times-unsaid bot m [] h = refl
times-unsaid bot m (p ∷ ps) h = elim (Bool-cases (p.body == m)) [
  | inl same ↦ ground (arith, times-unsaid bot m ps, contains_refl m, (eq_iff p.body m).0 same)
  | inr other ↦ ground (arith, times-unsaid bot m ps)
]

pub times-append :
    (bot m : String) (ps : List Post) (p : Post)
    → times bot m (ps ++ p ∷ []) ≡ times bot m ps + (if is_answer bot m p then 1 else 0)
unfolding times
times-append bot m [] p = omega arith
times-append bot m (q ∷ ps) p = omega (arith, times-append bot m ps p)

pub occurrences-le : (m x : String) (xs : List String) → occurrences m xs ≤ occurrences m (x ∷ xs)
unfolding occurrences
occurrences-le m x xs = omega arith

pub nat_eq→eq : (i j : ℕ) → nat_eq i j ≡ true → i ≡ j
nat_eq→eq i j h = ground arith

nat_eq_refl : (i : ℕ) → nat_eq i i ≡ true
nat_eq_refl i = ground arith

module _ {A : Type 0} (Q : ℕ → A → Type 0) where
  -- What holds of the new value, and of the old ones elsewhere, holds after the change.
  pub set-All :
      (i : ℕ) (a : A) (f : ℕ → A)
      → Q i a
      → ((j : ℕ) → nat_eq i j ≡ false → Q j (f j))
      → (j : ℕ) → Q j (set i a f j)
  set-All i a f here there j = elim (Bool-cases (nat_eq i j)) [
    | inl same ↦ rw same (subst (λ k. Q k a) (nat_eq→eq i j same) here)
    | inr other ↦ rw other (there j other)
  ]

pub set-same : {A : Type 0} (i : ℕ) (a : A) (f : ℕ → A) → set i a f i ≡ a
set-same i a f = rw (nat_eq_refl i) refl
