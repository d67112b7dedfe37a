-- ===== src/Server/Transport/Path.antt =====
-- server/metrics.go: the paths under which requests are counted.
use mattermost_mattermod.Base.{
  ◌≡◌, ◌≤◌, ℕ, zero, suc, String, true, List, [], ◌∷◌, All, length, arith, ltb, inl, inr,
  Bool-cases,
}
use mattermost_mattermod.Base.Text.{split, join}
use mattermost_mattermod.Base.Text.Split.{Free, split-Free, split-join}
use mattermost_mattermod.Server.Transport.{take, get_github_request_path}

take-All : {A : Type 0} (P : A → Type 0) (xs : List A) (n : ℕ) → All P xs → All P (take xs n)
unfolding take
take-All P [] n h = tt
take-All P (x ∷ xs) zero h = tt
take-All P (x ∷ xs) (suc n) h = (h.0, take-All P xs n h.1)

length-take : {A : Type 0} (xs : List A) (n : ℕ) → length (take xs n) ≤ n
unfolding take
length-take [] n = omega arith
length-take (x ∷ xs) zero = omega arith
length-take (x ∷ xs) (suc n) = omega (arith, length-take xs n)

-- The joined parts, at least one of them, are the parts again.
split-take :
    (parts : List String) (n : ℕ)
    → All (Free b'/') parts
    → ltb n (length parts) ≡ true
    → split (join (take parts (suc n)) "/") b'/' ≡ take parts (suc n)
unfolding take
split-take [] n h long = absurd (ground arith)
split-take (p ∷ ps) n h long = split-join p (take ps n) (h.0, take-All (Free b'/') ps n h.1)

-- The path under which a request to GitHub is counted has at most five parts, "/repos/owner/name/kind"
-- at the longest, and is counted under itself again.
pub get_github_request_path-parts :
    (path : String)
    → (length (split (get_github_request_path path) b'/') ≤ 5)
      × (get_github_request_path (get_github_request_path path) ≡ get_github_request_path path)
unfolding get_github_request_path
get_github_request_path-parts path = elim (Bool-cases (ltb 5 (length (split path b'/')))) [
  | inl long ↦
      let parts = take (split path b'/') 5 in
      let again = split-take (split path b'/') 4 (split-Free b'/' path) (ground arith) in
      ground (arith, again, length-take (split path b'/') 5)
  | inr short ↦ ground arith
]
