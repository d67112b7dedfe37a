-- ===== src/Store/Issues.antt =====
-- store/sql_issue_store.go, over the table Issues.
pub mod RoundTrip
use mattermost_mattermod.Base.{not, Option, none, some, List, [], ◌∷◌, if◌then◌else◌, is_some}
use mattermost_mattermod.Base.Text.{◌+++◌, itoa}
use mattermost_mattermod.Model.{Issue, Key, key_eq, issue_key}
use mattermost_mattermod.World.{ran, insert_issue, update_issue, select_issue}
use mattermost_mattermod.World.Github.{Error, Result, ok, err}
use mattermost_mattermod.World.Monad.{
  Server, M, ◌>>=◌, ◌>>◌, pure, gets, modify, when, ask, statement, error,
}
use mattermost_mattermod.Store.PullRequests.{duplicate_key}

unfoldable pub find : Key → List Issue → Option Issue
find k [] = none
find k (row ∷ rows) = if key_eq (issue_key row) k then some row else find k rows

unfoldable pub update_where : Issue → List Issue → List Issue
update_where issue [] = []
update_where issue (row ∷ rows) =
    (if key_eq (issue_key row) (issue_key issue) then issue else row) ∷ update_where issue rows

unfoldable pub insert : Server → Issue → M (Option Error)
unfolding ◌>>=◌ find
insert s issue = do
  rows ← gets (λ w. w.issues)
  e ←
      ask
        (λ t.
          if is_some (find (issue_key issue) rows)
          then some duplicate_key
          else s.outside.statement t (insert_issue issue))
        (ran (insert_issue issue))
  when (not (is_some e)) (modify (λ w. record w { issues = issue ∷ w.issues }))
  pure e

unfoldable pub update : Server → Issue → M (Option Error)
unfolding ◌>>=◌ update_where
update s issue = do
  e ← statement s (update_issue issue)
  when (not (is_some e)) (modify (λ w. record w { issues = update_where issue w.issues }))
  pure e

abbrev could_not_save : Issue → Error → Error
could_not_save issue e = error (
    "could not insert or update issue: owner="
    +++ issue.repo_owner
    +++ ", name="
    +++ issue.repo_name
    +++ ", number="
    +++ itoa issue.number
    +++ ", err="
    +++ e.text)

-- SQLIssueStore.Save
unfoldable pub save : Server → Issue → M (Result Issue)
unfolding ◌>>=◌ insert update
save s issue = do
  inserted ← insert s issue
  elim inserted [
    | none ↦ pure (ok issue)
    | some _ ↦ do
      updated ← update s issue
      elim updated [ none ↦ pure (ok issue) | some e ↦ pure (err (could_not_save issue e)) ]
  ]

-- SQLIssueStore.Get
unfoldable pub get : Server → Key → M (Result (Option Issue))
unfolding ◌>>=◌ find
get s k = do
  e ← statement s (select_issue k)
  rows ← gets (λ w. w.issues)
  pure (elim e [
    | none ↦ ok (find k rows)
    | some e ↦ err (error ("could not get issue: owner=, name=, number=0, err=" +++ e.text))
  ])
