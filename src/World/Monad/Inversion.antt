-- ===== src/World/Monad/Inversion.antt =====
-- What a chain of steps that may fail has done, once it is known to have succeeded.
use mattermost_mattermod.Base.{◌≡◌, inl, inr, arith}
use mattermost_mattermod.World.{World}
use mattermost_mattermod.World.Github.{Result, ok, Result-cases}
use mattermost_mattermod.World.Monad.{M, returned, Outcome-cases, attempt}

-- The first step gave a value, and the chain went on from there.
pub attempt-eq-ok :
    {A B : Type 0} (m : M (Result A)) (f : A → M (Result B)) (b : B) (w : World)
    → (attempt m f w).0 ≡ returned (ok b)
    → (a : A) × ((m w).0 ≡ returned (ok a)) × (attempt m f w ≡ f a (m w).1)
unfolding attempt
attempt-eq-ok m f b w h = elim (Outcome-cases (m w).0) [
  | inr (inl e) ↦ absurd (ground arith)
  | inr (inr e) ↦ absurd (ground arith)
  | inl (r, e) ↦ elim (Result-cases r) [
    | inl (a, q) ↦ (a, ground arith, ground arith)
    | inr (x, q) ↦ absurd (ground arith)
  ]
]
