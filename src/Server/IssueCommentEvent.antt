-- ===== src/Server/IssueCommentEvent.antt =====
-- server/issue_comment_handler.go: the commands in a comment on a pull request.
pub mod Commands
pub mod Sound
use mattermost_mattermod.Base.{
  ℕ, String, Bool, true, false, ◌||◌, Option, none, some, List, [], ◌∷◌, ◌++◌, ◌==◌, not,
  if◌then◌else◌, is_nil,
}
use mattermost_mattermod.Base.Text.{trim_space, contains}
use mattermost_mattermod.Model.{PullRequest}
use mattermost_mattermod.World.{counted}
use mattermost_mattermod.World.Github.{Error, Result, ok, err, GhIssue}
use mattermost_mattermod.World.Monad.{
  Server, M, ◌>>=◌, ◌>>◌, pure, done, emit, when, error, wrap, http_error, modify,
}
use mattermost_mattermod.Server.Cla.{handle_check_cla}
use mattermost_mattermod.Server.CherryPick.{handle_cherry_pick}
use mattermost_mattermod.Server.AutoAssign.{handle_auto_assign}
use mattermost_mattermod.Server.UpdateBranch.{handle_update_branch}
use mattermost_mattermod.Server.Fetch.{get_pr_from_issue_comment_event}

pub record CommentBody : Type 0 where
  pub login : String
  pub body : String
  pub html_url : String

pub record IssueCommentEvent : Type 0 where
  pub comment : CommentBody
  pub issue : GhIssue
  pub repo_owner : String
  pub repo_name : String
  pub action : String

pub record IssueCommentPayload : Type 0 where
  pub comment : Option CommentBody
  pub issue : Option GhIssue
  pub repository : Option (String × String)
  pub action : String

-- issueCommentEventFromJSON, on what the JSON decoder gives.
unfoldable pub issue_comment_event_from_json : Result IssueCommentPayload → Result IssueCommentEvent
issue_comment_event_from_json (err e) = err e
issue_comment_event_from_json (ok payload) = elim payload.comment [
  | none ↦ err (error "comment is missing from body")
  | some comment ↦ elim payload.issue [
    | none ↦ err (error "issue is missing from body")
    | some issue ↦ elim payload.repository [
      | none ↦ err (error "repository is missing from body")
      | some repository ↦ ok (record {
        comment = comment;
        issue = issue;
        repo_owner = repository.0;
        repo_name = repository.1;
        action = payload.action;
      })
    ]
  ]
]

-- HasCheckCLA, HasCherryPick, HasAutoAssign and HasUpdateBranch, at their commands.
unfoldable pub has_command : IssueCommentEvent → String → Bool
unfolding contains trim_space
has_command e command = contains (trim_space e.comment.body) command

abbrev list_of : Option Error → List Error
list_of none = []
list_of (some e) = e ∷ []

-- One command: it is counted, run if it is in the comment, and its error counted and kept.
run_command : Bool → String → String → M (Option Error) → M (List Error)
unfolding ◌>>=◌
run_command wanted name msg handle = do
  let run = do
    emit (counted "IncreaseWebhookRequest" name)
    e ← handle
    elim e as (λ e. M (List Error)) [
      | none ↦ pure []
      | some e ↦ do emit (counted "IncreaseWebhookErrors" name); pure (wrap msg e ∷ [])
    ]
  if wanted then run else pure []

-- The error of handleCheckCLA.
check_cla_error : Server → PullRequest → M (Option Error)
unfolding ◌>>=◌ handle_check_cla
check_cla_error s pr = do r ← handle_check_cla s pr; pure r.1

-- The commands of a comment, in their order.
unfoldable pub run_commands : Server → IssueCommentEvent → PullRequest → M (List Error)
unfolding ◌>>=◌ run_command check_cla_error handle_cherry_pick handle_auto_assign
    handle_update_branch has_command
run_commands s ev pr = do
  cla ←
      run_command (has_command ev "/check-cla") "check_cla" "error checking CLA"
        (check_cla_error s pr)
  cherry_pick ←
      run_command (has_command ev "/cherry-pick") "cherry_pick" "error cherry picking"
        (handle_cherry_pick s ev.comment.login ev.comment.body pr)
  auto_assign ←
      run_command (has_command ev "/autoassign") "auto_assign" "error auto assigning"
        (handle_auto_assign s ev.comment.html_url pr)
  update_branch ←
      run_command (has_command ev "/update-branch") "update_branch" "error updating branch"
        (handle_update_branch s ev.comment.login pr)
  pure (cla ++ (cherry_pick ++ (auto_assign ++ update_branch)))

-- The part of the handler for a comment on a pull request that is not deleted.
handle_comment : Server → IssueCommentEvent → M (Unit {0})
unfolding ◌>>=◌ get_pr_from_issue_comment_event run_commands
handle_comment s ev = do
  r ← get_pr_from_issue_comment_event s ev.repo_owner ev.repo_name ev.issue.number ev.action
  elim r [
    | err e ↦ http_error e.text 500
    | ok pr ↦ do
      errs ← run_commands s ev pr
      when (not (is_nil errs)) (http_error "Error handling PR comment" 500)
  ]

-- issueCommentEventHandler
unfoldable pub issue_comment_event_handler : Server → Result IssueCommentEvent → M (Unit {0})
unfolding ◌>>=◌ handle_comment
issue_comment_event_handler s (err e) = http_error e.text 400
issue_comment_event_handler s (ok ev) =
    if not ev.issue.is_pull_request
    then done
    else if ev.action == "deleted"
    then done
    else handle_comment s ev
