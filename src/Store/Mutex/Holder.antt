-- ===== src/Store/Mutex/Holder.antt =====
-- store/sql_lock_store.go: what the holder of the lock keeps, the goroutine that refreshes it, and Unlock.
use mattermost_mattermod.Base.{
  ◌≡◌, ◌≢◌, refl, ap, ◌+◌, ◌*◌, ◌++◌, ◌||◌, any, all, leb, ltb, length, ℕ, Bool, true, false,
  Option, none, some, List, [], ◌∷◌, if◌then◌else◌, arith,
}
use mattermost_mattermod.Store.Mutex.{Table, Faults, refresh_lock, unlock, ttl, Round, lock, locked}
use mattermost_mattermod.Store.Mutex.Exclusion.{faulty, lock_held, lock_acquires}

-- stopRefresh is a channel from Lock to Unlock, and nil otherwise.
pub record Holder : Type 0 where
  pub stop_refresh : Bool

-- The ticks of the goroutine of Lock, by what fails at each: it ends at an error and tells nobody. True
-- where it still runs.
unfoldable pub refresh_loop : List Faults → Table → Bool × Table
unfolding refresh_lock
refresh_loop [] row = (true, row)
refresh_loop (faults ∷ ticks) row =
    let refreshed = refresh_lock faults row in
    let rest = refresh_loop ticks refreshed.1 in if refreshed.0 then rest else (false, refreshed.1)

-- The end of Lock.
unfoldable pub hold : Holder → Holder
hold m = record { stop_refresh = true }

-- Unlock, which panics where the mutex is not held.
unfoldable pub unlock_mutex : Bool → Holder → Table → Option (Holder × Table)
unfolding unlock
unlock_mutex fails m row =
    if m.stop_refresh then some (record { stop_refresh = false }, unlock fails row) else none

-- A tick whose refresh fails.
abbrev pub fails_refresh : Faults → Bool
fails_refresh faults = faults.begin || faults.select || faults.update || faults.commit

-- The refreshes end with the first one that fails, whatever would be of the later ones: the expiry has
-- moved by 15 seconds for each tick before it, and stays.
refresh_loop_ends :
    (ticks rest : List Faults) (bad : Faults) (e : ℕ)
    → any fails_refresh ticks ≡ false
    → fails_refresh bad ≡ true
    → refresh_loop (ticks ++ (bad ∷ rest)) (some e) ≡ (false, some (e + length ticks * ttl))
unfolding refresh_loop refresh_lock
refresh_loop_ends [] rest bad e good fails = ground arith
refresh_loop_ends (tick ∷ ticks) rest bad e good fails =
    ground (arith, refresh_loop_ends ticks rest bad (e + ttl))

-- A holder's refresh fails after a number of ticks. Another instance, in some of whose rounds the row has
-- expired, has the lock then, until `x`, and as long as its row is there, a third instance, all of whose
-- rounds come before `x`, does not get the lock. The first holder's Unlock deletes the row, and now the
-- third instance gets the lock in the same rounds.
pub unlock_mutex-foreign :
    (ticks rest : List Faults) (bad : Faults) (e x : ℕ) (seconds : List Round) (third : Round)
    (thirds : List Round) (m : Holder)
    → any fails_refresh ticks ≡ false
    → fails_refresh bad ≡ true
    → any (λ r. r.cancelled || faulty r.faults) seconds ≡ false
    → any (λ r. leb (e + length ticks * ttl) r.now) seconds ≡ true
    → (lock seconds (some (e + length ticks * ttl))).1 ≡ some x
    → any (λ r. r.cancelled || faulty r.faults) (third ∷ thirds) ≡ false
    → all (λ r. ltb r.now x) (third ∷ thirds) ≡ true
    → let left = (refresh_loop (ticks ++ (bad ∷ rest)) (some e)).1 in
      let second = lock seconds left in
      (second.0 ≡ locked)
      × ((lock (third ∷ thirds) second.1).0 ≢ locked)
      × ((after : Holder × Table) × (unlock_mutex false (hold m) second.1 ≡ some after)
          × ((lock (third ∷ thirds) after.1).0 ≡ locked))
unfolding hold unlock_mutex
unlock_mutex-foreign ticks rest bad e x seconds third thirds m good fails works expired row others
      early =
    let until : Table = some (e + length ticks * ttl) in
    let left : (refresh_loop (ticks ++ (bad ∷ rest)) (some e)).1 ≡ until =
      ap (λ r. r.1) (refresh_loop_ends ticks rest bad e good fails) in
    rw left (
      lock_acquires seconds until works expired,
      rw row (lock_held (third ∷ thirds) x early).0,
      (
        (record { stop_refresh = false }, none),
        refl,
        lock_acquires (third ∷ thirds) none others refl,
      ),
    )
