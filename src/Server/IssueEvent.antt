-- ===== src/Server/IssueEvent.antt =====
-- server/issue_handler.go and server/pr_from_issue_handler.go.
pub mod Milestone
pub mod Sound
use mattermost_mattermod.Base.{
  ℕ, String, Bool, true, false, ◌||◌, Option, none, some, List, [], ◌∷◌, ◌==◌, not, if◌then◌else◌,
  mem,
}
use mattermost_mattermod.Base.Text.{replace_all}
use mattermost_mattermod.Model.{Issue, PullRequest, Key, issue_key}
use mattermost_mattermod.World.{World}
use mattermost_mattermod.World.Github.{Error, Result, ok, err, GhIssue, Comment}
use mattermost_mattermod.World.Config.{LabelResponse}
use mattermost_mattermod.World.Monad.{
  Server, M, ◌>>=◌, ◌>>◌, pure, done, when, for_each, with_comment_lock, wrap, http_error, attempt,
  error,
}
use mattermost_mattermod.Store.Issues
use mattermost_mattermod.Store.PullRequests
use mattermost_mattermod.Server.Pages.{get_comments}
use mattermost_mattermod.Server.Github.{send_github_comment, message_by_user_contains}
use mattermost_mattermod.Server.Fetch.{get_issue_from_github}

-- The payload: the repository is that of `event.Repo`.
pub record IssueEvent : Type 0 where
  pub issue : GhIssue
  pub repo_owner : String
  pub repo_name : String

-- What the decoder gives: the issue and the repository may be missing.
pub record IssuePayload : Type 0 where
  pub issue : Option GhIssue
  pub repo : Option (String × String)

-- issueEventFromJSON, on what the JSON decoder gives.
unfoldable pub issue_event_from_json : Result IssuePayload → Result IssueEvent
issue_event_from_json (err e) = err e
issue_event_from_json (ok payload) = elim payload.issue [
  | none ↦ err (error "github issue is missing from body")
  | some issue ↦ elim payload.repo [
    | none ↦ err (error "github repo is missing from body")
    | some repo ↦ ok (record { issue = issue; repo_owner = repo.0; repo_name = repo.1 })
  ]
]

-- One configured answer of handleIssueLabeled.
unfoldable pub answer_issue_label :
    Server → Issue → String → List Comment → LabelResponse → M (Unit {0})
unfolding ◌>>=◌ message_by_user_contains send_github_comment
answer_issue_label s issue added_label comments label = do
  let final_message = replace_all label.message "USERNAME" issue.username
  let answer = do
    said ← message_by_user_contains comments s.config.username final_message
    when (not said) (
        send_github_comment s issue.repo_owner issue.repo_name issue.number final_message >>= λ _.
        done)
  when (label.label == added_label) answer

-- handleIssueLabeled
unfoldable pub handle_issue_labeled : Server → Issue → String → M (Result (Unit {0}))
unfolding ◌>>=◌ with_comment_lock get_comments for_each answer_issue_label
handle_issue_labeled s issue added_label = with_comment_lock do
  r ← get_comments s issue.repo_owner issue.repo_name issue.number
  elim r [
    | err e ↦ pure (err (wrap "could not get issue from GitHub" e))
    | ok comments ↦
        for_each s.config.issue_labels (answer_issue_label s issue added_label comments)
        >> pure (ok tt)
  ]

wrapped : {A : Type 0} → String → M (Result A) → M (Result A)
unfolding ◌>>=◌
wrapped msg m = do r ← m; elim r [ err e ↦ pure (err (wrap msg e)) | ok a ↦ pure (ok a) ]

-- The loop over the labels: it handles each new one, and tells whether there was one.
handle_new_labels : Server → Issue → List String → List String → M (Result Bool)
unfolding ◌>>=◌ handle_issue_labeled attempt wrapped
handle_new_labels s issue old_labels [] = pure (ok false)
handle_new_labels s issue old_labels (label ∷ labels) =
    let rest = handle_new_labels s issue old_labels labels in
    if mem label old_labels
    then rest
    else attempt (wrapped "could not handle issue label added" (handle_issue_labeled s issue label))
        λ _. attempt rest λ _. pure (ok true)

-- The error of a save, where its value is not used.
save_issue : Server → Issue → M (Option Error)
unfolding ◌>>=◌ Issues.save
save_issue s issue = do r ← Issues.save s issue; elim r [ err e ↦ pure (some e) | ok _ ↦ pure none ]

-- The part of checkIssueForChanges for an issue that is in the database.
compare_issue : Server → Issue → Issue → M (Option Error)
unfolding ◌>>=◌ handle_new_labels save_issue
compare_issue s old issue = do
  r ← handle_new_labels s issue old.labels issue.labels
  elim r [
    | err e ↦ pure (some e)
    | ok added ↦ if not (old.state == issue.state) || added then save_issue s issue else pure none
  ]

-- checkIssueForChanges
unfoldable pub check_issue_for_changes : Server → Issue → M (Option Error)
unfolding ◌>>=◌ Issues.get save_issue compare_issue
check_issue_for_changes s issue = do
  r ← Issues.get s (issue_key issue)
  elim r [
    | err e ↦ pure (some e)
    | ok none ↦ save_issue s issue
    | ok (some old) ↦ compare_issue s old issue
  ]

-- issueEventHandler
unfoldable pub issue_event_handler : Server → Result IssueEvent → M (Unit {0})
unfolding ◌>>=◌ get_issue_from_github check_issue_for_changes
issue_event_handler s (err e) = http_error e.text 400
issue_event_handler s (ok event) = do
  r ← get_issue_from_github s event.issue
  elim r [
    | err e ↦ http_error "could not get the issue from GitHub" 500
    | ok issue ↦ do
      e ← check_issue_for_changes s issue
      elim e [ none ↦ done | some e ↦ http_error e.text 500 ]
  ]

-- The row with the milestone of the event.
abbrev pub with_milestone : PullRequest → ℕ × String → PullRequest
with_milestone pr m = record pr { milestone_number = some m.0; milestone_title = some m.1 }

-- The part of prFromIssueHandler for an event with a milestone.
update_milestone : Server → Key → ℕ × String → M (Unit {0})
unfolding ◌>>=◌ PullRequests.get PullRequests.save
update_milestone s k milestone = do
  r ← PullRequests.get s k
  elim r [
    | err e ↦ http_error e.text 500
    | ok none ↦ done
    | ok (some old) ↦ do
      saved ← PullRequests.save s (with_milestone old milestone)
      elim saved [ ok _ ↦ done | err e ↦ http_error e.text 500 ]
  ]

-- prFromIssueHandler
unfoldable pub pr_from_issue_handler : Server → IssueEvent → M (Unit {0})
unfolding ◌>>=◌ update_milestone
pr_from_issue_handler s event = elim event.issue.milestone [
  | none ↦ done
  | some milestone ↦
      update_milestone s
        (record { owner = event.repo_owner; name = event.repo_name; number = event.issue.number })
        milestone
]
