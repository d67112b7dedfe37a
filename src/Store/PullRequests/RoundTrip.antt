-- ===== src/Store/PullRequests/RoundTrip.antt =====
-- store/sql_pull_request_store.go: what Save stores and what it leaves alone.
use mathlib.Core.Option
use mattermost_mattermod.Base.{
  ◌≡◌, ap, inl, inr, true, Option, none, some, List, [], ◌∷◌, arith, Bool-cases, if◌then◌else◌,
}
use mattermost_mattermod.Model.{PullRequest, Key, key_eq, pr_key}
use mattermost_mattermod.Model.Keys.{key_eq→eq, key_eq_left, key_eq_join}
use mattermost_mattermod.World.{World, ran, insert_pr, update_pr}
use mattermost_mattermod.World.Github.{ok, err, Error}
use mattermost_mattermod.World.Monad.{Server, returned}
use mattermost_mattermod.Store.PullRequests.{update_row, find, update_where, save}

-- The row that a save of `pr` leaves, given the row that was there, column by column: the milestone
-- columns are those of the old row, and NULL where there was none, and all others are those of `pr`.
abbrev pub stored : PullRequest → Option PullRequest → PullRequest
stored pr none = record {
  number = pr.number;
  repo_owner = pr.repo_owner;
  repo_name = pr.repo_name;
  full_name = pr.full_name;
  username = pr.username;
  ref = pr.ref;
  sha = pr.sha;
  labels = pr.labels;
  state = pr.state;
  build_status = pr.build_status;
  build_conclusion = pr.build_conclusion;
  build_link = pr.build_link;
  url = pr.url;
  created_at = pr.created_at;
  merged = pr.merged;
  maintainer_can_modify = pr.maintainer_can_modify;
  merge_commit_sha = "";
  milestone_number = none;
  milestone_title = none;
}
stored pr (some row) = record {
  number = pr.number;
  repo_owner = pr.repo_owner;
  repo_name = pr.repo_name;
  full_name = pr.full_name;
  username = pr.username;
  ref = pr.ref;
  sha = pr.sha;
  labels = pr.labels;
  state = pr.state;
  build_status = pr.build_status;
  build_conclusion = pr.build_conclusion;
  build_link = pr.build_link;
  url = pr.url;
  created_at = pr.created_at;
  merged = pr.merged;
  maintainer_can_modify = pr.maintainer_can_modify;
  merge_commit_sha = "";
  milestone_number = row.milestone_number;
  milestone_title = row.milestone_title;
}

-- No two rows have one key.
abbrev pub Distinct : List PullRequest → Type 0
Distinct [] = Unit {0}
Distinct (row ∷ rows) = (find (pr_key row) rows ≡ none) × Distinct rows

-- UPDATE changes the row of its key.
pub find-update_where :
    (pr : PullRequest) (k : Key) (rows : List PullRequest)
    → find k (update_where pr rows)
      ≡ (if key_eq (pr_key pr) k then Option.map (update_row pr) (find k rows) else find k rows)
unfolding find update_where
find-update_where pr k [] = ground arith
find-update_where pr k (row ∷ rows) = elim (Bool-cases (key_eq (pr_key row) (pr_key pr))) [
  | inl hit ↦
      rw hit
        (ground (arith, key_eq_left (pr_key row) (pr_key pr) k hit, find-update_where pr k rows))
  | inr miss ↦
      rw miss (ground (arith, key_eq_join (pr_key row) (pr_key pr) k, find-update_where pr k rows))
]

pub find_at : (a k : Key) (rows : List PullRequest) → key_eq a k ≡ true → find a rows ≡ find k rows
find_at a k rows h = ap (λ c. find c rows) (key_eq→eq a k h)

-- UPDATE keeps the keys apart.
Distinct-update_where :
    (pr : PullRequest) (rows : List PullRequest) → Distinct rows → Distinct (update_where pr rows)
unfolding update_where
Distinct-update_where pr [] d = tt
Distinct-update_where pr (row ∷ rows) d = elim (Bool-cases (key_eq (pr_key row) (pr_key pr))) [
  | inl hit ↦ rw hit (
    ground
        (arith, find-update_where pr (pr_key pr) rows, find_at (pr_key row) (pr_key pr) rows hit),
    Distinct-update_where pr rows d.1,
  )
  | inr miss ↦
      rw miss
        (ground (arith, find-update_where pr (pr_key row) rows), Distinct-update_where pr rows d.1)
]

-- Where the driver accepts the INSERT of a new key, a save that reports no error leaves under the key
-- of `pr` the columns of `pr` itself, but for the milestone: its columns are those of the row that was
-- there, and NULL where there was none. No other row changes.
pub find-save :
    (s : Server) (pr r : PullRequest) (k : Key) (w : World)
    → s.outside.statement w.trace (insert_pr pr) ≡ none
    → (save s pr w).0 ≡ returned (ok r)
    → find k (save s pr w).1.pull_requests ≡ (
        if key_eq (pr_key pr) k
        then some (stored pr (find (pr_key pr) w.pull_requests))
        else find k w.pull_requests)
unfolding save
find-save s pr r k w accepts saved =
    ground (arith, find-update_where pr k w.pull_requests, find_at (pr_key pr) k w.pull_requests)

-- No save breaks the primary key, whether it reports an error or not.
pub save-Distinct :
    (s : Server) (pr : PullRequest) (w : World)
    → Distinct w.pull_requests
    → Distinct (save s pr w).1.pull_requests
unfolding save
save-Distinct s pr w d = ground (arith, Distinct-update_where pr w.pull_requests d)

-- A save that reports an error has changed nothing but the history.
pub save_err :
    (s : Server) (pr : PullRequest) (e : Error) (w : World)
    → (save s pr w).0 ≡ returned (err e)
    → (save s pr w).1.pull_requests ≡ w.pull_requests
unfolding save
save_err s pr e w h = ground arith

-- Any error of the INSERT counts as a duplicate key: if it fails for another reason on a new key, and
-- the UPDATE then runs, the save reports no error and has stored nothing.
save_lost :
    (s : Server) (pr : PullRequest) (e : Error) (w : World)
    → find (pr_key pr) w.pull_requests ≡ none
    → s.outside.statement w.trace (insert_pr pr) ≡ some e
    → s.outside.statement (ran (insert_pr pr) (some e) ∷ w.trace) (update_pr pr) ≡ none
    → ((save s pr w).0 ≡ returned (ok pr)) × (find (pr_key pr) (save s pr w).1.pull_requests ≡ none)
unfolding save
save_lost s pr e w new fails runs = ground (arith, find-update_where pr (pr_key pr) w.pull_requests)
