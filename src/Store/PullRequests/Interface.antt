-- ===== src/Store/PullRequests/Interface.antt =====
-- store/store.go, PullRequestStore: what its clients may rely on, over a map from keys to rows, and the
-- SQL store as one of it.
use mattermost_mattermod.Base.{◌≡◌, Option, none, some, List, [], ◌∷◌, ◌==◌, if◌then◌else◌}
use mattermost_mattermod.Model.{PullRequest, Key, key_eq, pr_key, state_open}
use mattermost_mattermod.World.{World}
use mattermost_mattermod.World.Github.{Error, Result, ok, err}
use mattermost_mattermod.World.Monad.{Server, M, ◌>>=◌, pure}
use mattermost_mattermod.Store.PullRequests.{find, save, get, list_open}
use mattermost_mattermod.Store.PullRequests.RoundTrip.{stored}

-- A client's view of the table.
abbrev pub Map : Type 0
Map = Key → Option PullRequest

abbrev pub map_of : World → Map
map_of w k = find k w.pull_requests

-- A call of the interface, and its answer.
pub data Call : Type 0 where
  saves : PullRequest → Call
  gets_at : Key → Call
  lists : Call

pub data Answer : Type 0 where
  saved : Result PullRequest → Answer
  got : Result (Option PullRequest) → Answer
  listed : Result (List PullRequest) → Answer

-- The map with the row that a save of `pr` leaves.
abbrev pub put : PullRequest → Map → Map
put pr t k = if key_eq (pr_key pr) k then some (stored pr (t (pr_key pr))) else t k

-- The row, if it is open.
abbrev pub if_open : Option PullRequest → Option PullRequest
if_open none = none
if_open (some row) = if row.state == state_open then some row else none

-- What a call may answer, and the map after it. A call may fail and change nothing; and a save of a new
-- row may report success and be lost.
pub data Specified (t t' : Map) : Call → Answer → Type 0 where
  save_stores :
      (pr : PullRequest)
      → ((k : Key) → t' k ≡ put pr t k)
      → Specified t t' (saves pr) (saved (ok pr))
  save_loses :
      (pr : PullRequest)
      → t (pr_key pr) ≡ none
      → ((k : Key) → t' k ≡ t k)
      → Specified t t' (saves pr) (saved (ok pr))
  save_fails :
      (pr : PullRequest) (e : Error)
      → ((k : Key) → t' k ≡ t k)
      → Specified t t' (saves pr) (saved (err e))
  get_finds : (k : Key) → ((k : Key) → t' k ≡ t k) → Specified t t' (gets_at k) (got (ok (t k)))
  get_fails :
      (k : Key) (e : Error) → ((k : Key) → t' k ≡ t k) → Specified t t' (gets_at k) (got (err e))
  list_finds :
      (rows : List PullRequest)
      → ((k : Key) → find k rows ≡ if_open (t k))
      → ((k : Key) → t' k ≡ t k)
      → Specified t t' lists (listed (ok rows))
  list_fails : (e : Error) → ((k : Key) → t' k ≡ t k) → Specified t t' lists (listed (err e))

-- The SQL store.
unfoldable pub perform : Server → Call → M Answer
unfolding ◌>>=◌
perform s (saves pr) = do r ← save s pr; pure (saved r)
perform s (gets_at k) = do r ← get s k; pure (got r)
perform s lists = do r ← list_open s; pure (listed r)

-- The calls answer one after the other.
pub data Answers : Map → List Call → List Answer → Map → Type 0 where
  no_call : (t : Map) → Answers t [] [] t
  next_call :
      {t t' t'' : Map} {c : Call} {a : Answer} {calls : List Call} {answers : List Answer}
      → Specified t t' c a
      → Answers t' calls answers t''
      → Answers t (c ∷ calls) (a ∷ answers) t''

unfoldable pub perform_all : Server → List Call → M (List Answer)
unfolding ◌>>=◌ perform
perform_all s [] = pure []
perform_all s (c ∷ calls) = do a ← perform s c; answers ← perform_all s calls; pure (a ∷ answers)
