-- ===== src/Store/Mutex/Race.antt =====
-- store/sql_lock_store.go: two instances that run releaseLock at once. A SELECT without FOR UPDATE
-- takes no lock in the database, so the steps of the two transactions come in any order.
use mattermost_mattermod.Base.{ℕ, ◌+◌, ◌≤◌, ◌<◌}
use mattermost_mattermod.Store.Mutex.{ttl}

-- How far an instance is in releaseLock: it has begun at a time, has read a time from the row, or has
-- returned nil or an error.
pub data Phase : Type 0 where
  begun : ℕ → Phase
  read : ℕ → ℕ → Phase
  holds refused : Phase

-- The row's ExpireAt and the two instances.
pub record Pair : Type 0 where
  pub expire_at : ℕ
  pub left : Phase
  pub right : Phase

-- A statement of one instance: the SELECT, the test of the time that it gave, the UPDATE.
pub data Step : ℕ → Phase → ℕ → Phase → Type 0 where
  select : {e now : ℕ} → Step e (begun now) e (read now e)
  refuse : {e now seen : ℕ} → now < seen → Step e (read now seen) e refused
  update : {e now seen : ℕ} → seen ≤ now → Step e (read now seen) (now + ttl) holds

-- Any number of statements of either instance.
pub data Runs : Pair → Pair → Type 0 where
  stop : {p : Pair} → Runs p p
  left_step :
      {e e' : ℕ} {l l' r : Phase} {q : Pair}
      → Step e l e' l'
      → Runs (record { expire_at = e'; left = l'; right = r }) q
      → Runs (record { expire_at = e; left = l; right = r }) q
  right_step :
      {e e' : ℕ} {l r r' : Phase} {q : Pair}
      → Step e r e' r'
      → Runs (record { expire_at = e'; left = l; right = r' }) q
      → Runs (record { expire_at = e; left = l; right = r }) q

-- Two instances that find an expired row can both take the lock, each for 15 seconds: from an expired
-- row there is a run at whose end both hold it.
pub releases_both :
    (e a b : ℕ)
    → e ≤ a
    → e ≤ b
    → Runs
        (record { expire_at = e; left = begun a; right = begun b })
        (record { expire_at = b + ttl; left = holds; right = holds })
releases_both e a b ha hb =
    left_step select (right_step select (left_step (update ha) (right_step (update hb) stop)))
