-- ===== src/Store/Mutex/Exclusion.antt =====
-- store/sql_lock_store.go: who gets the lock, and how long it is held.
use mattermost_mattermod.Base.{
  ℕ, ◌+◌, ◌*◌, ◌≡◌, ◌≢◌, refl, Bool, true, false, none, some, List, [], ◌∷◌, arith, if◌then◌else◌,
  ltb, leb, any, all, ◌||◌, length,
}
use mattermost_mattermod.Store.Mutex.{
  Table, ttl, Faults, release_lock, try_lock, refresh_lock, Round, lock, locked,
}

-- The row lets an attempt at `now` through: there is none, or it has expired.
abbrev pub free_at : ℕ → Table → Bool
free_at now none = true
free_at now (some e) = leb e now

-- A call of the database fails in an attempt.
abbrev pub faulty : Faults → Bool
faulty f =
    f.begin || f.insert || f.commit || f.begin_release || f.select || f.update || f.commit_release

-- An attempt that gets the lock found no row or an expired one, and leaves one that expires 15 seconds
-- from its time; any other attempt leaves the row as it is.
pub try_lock_lem :
    (faults : Faults) (now : ℕ) (row : Table)
    → try_lock faults now row
      ≡ (if (try_lock faults now row).0 then (true, some (now + ttl)) else (false, row))
unfolding try_lock release_lock
try_lock_lem faults now none = ground arith
try_lock_lem faults now (some e) = ground arith

-- Nobody takes a lock that has not expired.
pub try_lock_free :
    (faults : Faults) (now : ℕ) (row : Table)
    → (try_lock faults now row).0 ≡ true
    → free_at now row ≡ true
unfolding try_lock release_lock
try_lock_free faults now none h = refl
try_lock_free faults now (some e) h = ground arith

-- Without a fault, an attempt gets the lock exactly if the row lets it.
try_lock_works :
    (faults : Faults) (now : ℕ) (row : Table)
    → faulty faults ≡ false
    → (try_lock faults now row).0 ≡ free_at now row
unfolding try_lock release_lock
try_lock_works faults now none h = ground arith
try_lock_works faults now (some e) h = ground arith

-- While the row has not expired in any of its rounds, Lock does not get the lock and does not touch
-- the row.
pub lock_held :
    (rounds : List Round) (e : ℕ)
    → all (λ r. ltb r.now e) rounds ≡ true
    → ((lock rounds (some e)).0 ≢ locked) × ((lock rounds (some e)).1 ≡ some e)
unfolding lock try_lock release_lock
lock_held [] e h = ((λ q. cc), refl)
lock_held (round ∷ rounds) e h = ground (arith, lock_held rounds e)

-- Lock gets the lock if its context is not done, the database answers, and in some round the row is
-- not there or has expired.
pub lock_acquires :
    (rounds : List Round) (row : Table)
    → any (λ r. r.cancelled || faulty r.faults) rounds ≡ false
    → any (λ r. free_at r.now row) rounds ≡ true
    → (lock rounds row).0 ≡ locked
unfolding lock
lock_acquires [] row h g = cc
lock_acquires (round ∷ rounds) row h g = ground (
  arith,
  try_lock_works round.faults round.now row,
  try_lock_lem round.faults round.now row,
  lock_acquires rounds row,
)

-- The rows that a number of refreshes leave, all of whose calls work.
abbrev pub refreshes : List Faults → Table → Table
refreshes [] row = row
refreshes (f ∷ fs) row = refreshes fs (refresh_lock f row).1

-- A number of refreshes, none of whose calls fails, move the expiry of the row by 15 seconds each,
-- whatever time has passed between them.
refreshes_drift :
    (fs : List Faults) (e : ℕ)
    → any (λ f. faulty f) fs ≡ false
    → refreshes fs (some e) ≡ some (e + length fs * ttl)
unfolding refresh_lock
refreshes_drift [] e h = ground arith
refreshes_drift (f ∷ fs) e h = ground (arith, refreshes_drift fs (e + ttl))
