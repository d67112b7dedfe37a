-- ===== src/Store/PullRequests.antt =====
-- store/sql_pull_request_store.go over the table of store/migrations: rows with a primary key, the
-- newest first. A statement fails when the driver says so, and an INSERT also on a key that is there.
-- Keys are compared exactly.
pub mod RoundTrip
pub mod Interface
pub mod Refinement
use mattermost_mattermod.Base.{
  ℕ, String, Bool, true, false, not, Option, none, some, List, [], ◌∷◌, ◌==◌, if◌then◌else◌,
  is_some,
}
use mattermost_mattermod.Base.Text.{◌+++◌, itoa}
use mattermost_mattermod.Model.{PullRequest, Key, key_eq, pr_key, state_open}
use mattermost_mattermod.World.{World, ran, insert_pr, update_pr, select_pr, select_open}
use mattermost_mattermod.World.Github.{Error, Result, ok, err}
use mattermost_mattermod.World.Monad.{
  Server, M, ◌>>=◌, ◌>>◌, pure, gets, modify, when, ask, statement, error,
}

-- The row that INSERT writes: the columns that it does not name are NULL, and MergeCommitSHA is no
-- column.
abbrev pub insert_row : PullRequest → PullRequest
insert_row pr = record pr { milestone_number = none; milestone_title = none; merge_commit_sha = "" }

-- The row after UPDATE: the columns that it does not name stay.
abbrev pub update_row : PullRequest → PullRequest → PullRequest
update_row pr row = record pr {
  milestone_number = row.milestone_number;
  milestone_title = row.milestone_title;
  merge_commit_sha = "";
}

-- SELECT … WHERE RepoOwner = ? AND RepoName = ? AND Number = ?
unfoldable pub find : Key → List PullRequest → Option PullRequest
find k [] = none
find k (row ∷ rows) = if key_eq (pr_key row) k then some row else find k rows

-- UPDATE … WHERE RepoOwner = … AND RepoName = … AND Number = …
unfoldable pub update_where : PullRequest → List PullRequest → List PullRequest
update_where pr [] = []
update_where pr (row ∷ rows) =
    (if key_eq (pr_key row) (pr_key pr) then update_row pr row else row) ∷ update_where pr rows

-- SELECT … WHERE State = 'open'
unfoldable pub where_open : List PullRequest → List PullRequest
where_open [] = []
where_open (row ∷ rows) = if row.state == state_open then row ∷ where_open rows else where_open rows

abbrev pub duplicate_key : Error
duplicate_key = error "Error 1062: Duplicate entry"

-- The INSERT of Save.
unfoldable pub insert : Server → PullRequest → M (Option Error)
unfolding ◌>>=◌ find
insert s pr = do
  rows ← gets (λ w. w.pull_requests)
  e ←
      ask
        (λ t.
          if is_some (find (pr_key pr) rows)
          then some duplicate_key
          else s.outside.statement t (insert_pr pr))
        (ran (insert_pr pr))
  when (not (is_some e))
      (modify (λ w. record w { pull_requests = insert_row pr ∷ w.pull_requests }))
  pure e

-- The UPDATE of Save.
unfoldable pub update : Server → PullRequest → M (Option Error)
unfolding ◌>>=◌ update_where
update s pr = do
  e ← statement s (update_pr pr)
  when (not (is_some e))
      (modify (λ w. record w { pull_requests = update_where pr w.pull_requests }))
  pure e

abbrev pub could_not_save : PullRequest → Error → Error
could_not_save pr e = error (
    "could not insert or update PR: owner="
    +++ pr.repo_owner
    +++ ", name="
    +++ pr.repo_name
    +++ ", number="
    +++ itoa pr.number
    +++ ", err="
    +++ e.text)

-- SQLPullRequestStore.Save
unfoldable pub save : Server → PullRequest → M (Result PullRequest)
unfolding ◌>>=◌ insert update
save s pr = do
  inserted ← insert s pr
  elim inserted [
    | none ↦ pure (ok pr)
    | some _ ↦ do
      updated ← update s pr
      elim updated [ none ↦ pure (ok pr) | some e ↦ pure (err (could_not_save pr e)) ]
  ]

-- SQLPullRequestStore.Get. The message is written from the row that was not read, so it names no key.
unfoldable pub get : Server → Key → M (Result (Option PullRequest))
unfolding ◌>>=◌ find
get s k = do
  e ← statement s (select_pr k)
  rows ← gets (λ w. w.pull_requests)
  pure (elim e [
    | none ↦ ok (find k rows)
    | some e ↦ err (error ("could not get PR: owner=, name=, number=0, err=" +++ e.text))
  ])

-- SQLPullRequestStore.ListOpen
unfoldable pub list_open : Server → M (Result (List PullRequest))
unfolding ◌>>=◌ where_open
list_open s = do
  e ← statement s select_open
  rows ← gets (λ w. w.pull_requests)
  pure (elim e [
    | none ↦ ok (where_open rows)
    | some e ↦ err (error ("could not list open PRs: " +++ e.text))
  ])
