-- ===== src/Store/Mutex/Wait.antt =====
-- store/sql_lock_store.go: nextWaitInterval, in nanoseconds. A wait is never negative.
use mattermost_mattermod.Base.{
  ℕ, ◌+◌, ◌-◌, ◌*◌, ◌≤◌, ◌<◌, ◌≡◌, Bool, true, List, [], ◌∷◌, All, arith, if◌then◌else◌, ltb,
  nat_eq, ◌⊎◌, inl, inr, refl,
}

abbrev pub second : ℕ
second = 1000000000

abbrev pub min_wait_interval : ℕ
min_wait_interval = second

abbrev pub max_wait_interval : ℕ
max_wait_interval = 300 * second

abbrev pub poll_wait_interval : ℕ
poll_wait_interval = second

abbrev pub jitter_wait_interval : ℕ
jitter_wait_interval = 500000000

-- nextWaitInterval, with what rand.Int63n(jitterWaitInterval) gives.
unfoldable pub next_wait_interval : ℕ → Bool → ℕ → ℕ
next_wait_interval last failed random =
    let start = if nat_eq last 0 then min_wait_interval else last in
    let next =
      if failed
      then if ltb max_wait_interval (start * 2) then max_wait_interval else start * 2
      else poll_wait_interval in
    next + random - 250000000

-- The waits of a loop, from the last one, for the rounds' results and random numbers.
unfoldable pub waits : ℕ → List (Bool × ℕ) → List ℕ
unfolding next_wait_interval
waits last [] = []
waits last ((failed, random) ∷ rounds) =
    let next = next_wait_interval last failed random in next ∷ waits next rounds

abbrev InRange : ℕ → Type 0
InRange d = (750000000 ≤ d) × (d < max_wait_interval + 250000000)

next_wait_interval-InRange :
    (last random : ℕ) (failed : Bool)
    → (last ≡ 0) ⊎ (750000000 ≤ last)
    → random < jitter_wait_interval
    → InRange (next_wait_interval last failed random)
unfolding next_wait_interval
next_wait_interval-InRange last random failed start h = ground arith

waits_from :
    (last : ℕ) (rounds : List (Bool × ℕ))
    → (last ≡ 0) ⊎ (750000000 ≤ last)
    → All (λ r. r.1 < jitter_wait_interval) rounds
    → All InRange (waits last rounds)
unfolding waits
waits_from last [] start h = tt
waits_from last ((failed, random) ∷ rounds) start h =
    let next = next_wait_interval-InRange last random failed start h.0 in
    (next, waits_from (next_wait_interval last failed random) rounds (inr next.0) h.1)

-- All waits of Lock, from the first, lie between 0.75 seconds and 5 minutes and a quarter second: the
-- jitter is added after the limit of 5 minutes.
waits-InRange :
    (rounds : List (Bool × ℕ))
    → All (λ r. r.1 < jitter_wait_interval) rounds
    → All (λ d. (750000000 ≤ d) × (d < max_wait_interval + 250000000)) (waits 0 rounds)
waits-InRange rounds h = waits_from 0 rounds (inl refl) h

-- Each failure doubles the wait, up to the jitter, until the limit.
next_wait_interval_doubles :
    (last random : ℕ)
    → 0 < last
    → last * 2 ≤ max_wait_interval
    → random < jitter_wait_interval
    → (last * 2 ≤ next_wait_interval last true random + 250000000)
      × (next_wait_interval last true random < last * 2 + 250000000)
unfolding next_wait_interval
next_wait_interval_doubles last random pos small h = ground arith
