-- ===== src/Store/Mutex.antt =====
-- store/sql_lock_store.go: the lock in the table db_lock. The table is the row of the mutex's key: its
-- ExpireAt, a Unix second, if the row is there. Durations are in nanoseconds.
pub mod Wait
pub mod Exclusion
pub mod Race
pub mod Holder
use mattermost_mattermod.Base.{
  ℕ, ◌+◌, Bool, true, false, Option, none, some, List, [], ◌∷◌, if◌then◌else◌, ltb, leb,
}

abbrev pub Table : Type 0
Table = Option ℕ

-- tTL, in seconds
abbrev pub ttl : ℕ
ttl = 15

-- refreshInterval, tTL / 2, in half seconds
abbrev pub refresh_half_seconds : ℕ
refresh_half_seconds = 15

-- Which database calls of an attempt fail, other than by a duplicate key.
pub record Faults : Type 0 where
  pub begin : Bool
  pub insert : Bool
  pub commit : Bool
  pub begin_release : Bool
  pub select : Bool
  pub update : Bool
  pub commit_release : Bool

-- releaseLock at the Unix second `now`: true where it returns nil.
unfoldable pub release_lock : Faults → ℕ → Table → Bool × Table
release_lock faults now none = (false, none)
release_lock faults now (some e) =
    if faults.begin_release
    then (false, some e)
    else if faults.select
    then (false, some e)
    else if ltb now e
    then (false, some e)
    else if faults.update
    then (false, some e)
    else if faults.commit_release
    then (false, some e)
    else (true, some (now + ttl))

-- tryLock: true where it returns (true, nil); in every other case it returns an error. Whatever the
-- INSERT fails by, releaseLock is tried.
unfoldable pub try_lock : Faults → ℕ → Table → Bool × Table
unfolding release_lock
try_lock faults now (some e) =
    if faults.begin then (false, some e) else release_lock faults now (some e)
try_lock faults now none =
    if faults.begin
    then (false, none)
    else if faults.insert
    then release_lock faults now none
    else if faults.commit
    then (false, none)
    else (true, some (now + ttl))

-- refreshLock: the time that the row has is what the new one is counted from. True where it returns
-- nil.
unfoldable pub refresh_lock : Faults → Table → Bool × Table
refresh_lock faults none = (false, none)
refresh_lock faults (some e) =
    if faults.begin
    then (false, some e)
    else if faults.select
    then (false, some e)
    else if faults.update
    then (false, some e)
    else if faults.commit
    then (false, some e)
    else (true, some (e + ttl))

-- The DELETE of Unlock, which fails or removes the row, whoever wrote it.
unfoldable pub unlock : Bool → Table → Table
unlock fails row = if fails then row else none

-- One round of the loop of Lock: whether the context is done, the time, and what fails.
pub record Round : Type 0 where
  pub cancelled : Bool
  pub now : ℕ
  pub faults : Faults

pub data LockResult : Type 0 where
  locked cancelled waiting : LockResult

-- The loop of Lock over the rounds that it makes.
unfoldable pub lock : List Round → Table → LockResult × Table
unfolding try_lock
lock [] row = (waiting, row)
lock (round ∷ rounds) row =
    let tried = try_lock round.faults round.now row in
    let rest = lock rounds tried.1 in
    if round.cancelled then (cancelled, row) else if tried.0 then (locked, tried.1) else rest
