-- ===== src/Tests/Locking.antt =====
-- store/sql_lock_store.go: runs of its theorems.
use mattermost_mattermod.Base.{ℕ, List, ◌+◌, true, false, ◌≡◌, ◌≢◌, refl, some, [], ◌∷◌, arith}
use mattermost_mattermod.Store.Mutex.{Faults, Table, Round, lock, locked, ttl}
use mattermost_mattermod.Store.Mutex.Exclusion.{lock_held, lock_acquires}
use mattermost_mattermod.Store.Mutex.Holder.{
  Holder, refresh_loop, hold, unlock_mutex, unlock_mutex-foreign,
}
use mattermost_mattermod.Store.Mutex.Race.{Runs, begun, holds, releases_both}

abbrev works : Faults
works = record {
  begin = false;
  insert = false;
  commit = false;
  begin_release = false;
  select = false;
  update = false;
  commit_release = false;
}

abbrev at_second : ℕ → Round
at_second n = record { cancelled = false; now = n; faults = works }

lock_held_example :
    ((lock (at_second 10 ∷ at_second 12 ∷ []) (some 17)).0 ≢ locked)
    × ((lock (at_second 10 ∷ at_second 12 ∷ []) (some 17)).1 ≡ some 17)
lock_held_example = lock_held (at_second 10 ∷ at_second 12 ∷ []) 17 refl

lock_acquires_example : (lock (at_second 10 ∷ at_second 18 ∷ []) (some 17)).0 ≡ locked
lock_acquires_example = lock_acquires (at_second 10 ∷ at_second 18 ∷ []) (some 17) refl refl

releases_both_example :
    Runs
      (record { expire_at = 17; left = begun 20; right = begun 21 })
      (record { expire_at = 21 + ttl; left = holds; right = holds })
releases_both_example = releases_both 17 20 21 (omega arith) (omega arith)

-- A database that cannot begin a transaction.
abbrev no_transaction : Faults
no_transaction = record works { begin = true }

abbrev fresh : Holder
fresh = record { stop_refresh = false }

abbrev ticks : List Faults
ticks = works ∷ no_transaction ∷ works ∷ []

unlock_mutex-foreign_example :
    let left = (refresh_loop ticks (some 17)).1 in
    let second = lock (at_second 20 ∷ at_second 32 ∷ []) left in
    (second.0 ≡ locked)
    × ((lock (at_second 33 ∷ []) second.1).0 ≢ locked)
    × ((after : Holder × Table) × (unlock_mutex false (hold fresh) second.1 ≡ some after)
        × ((lock (at_second 33 ∷ []) after.1).0 ≡ locked))
unfolding lock
unlock_mutex-foreign_example =
    unlock_mutex-foreign (works ∷ []) (works ∷ []) no_transaction 17 47
      (at_second 20 ∷ at_second 32 ∷ []) (at_second 33) [] fresh refl refl refl refl refl refl refl
