-- ===== src/Server/IssueCommentEvent/Commands.antt =====
-- server/issue_comment_handler.go: which comments do anything.
use mattermost_mattermod.Base.{Bool, false, ◌≡◌, ◌||◌, ◌&&◌, not, ◌==◌, arith, if◌then◌else◌}
use mattermost_mattermod.Model.{PullRequest}
use mattermost_mattermod.World.{World}
use mattermost_mattermod.World.Github.{ok}
use mattermost_mattermod.World.Monad.{Server, returned}
use mattermost_mattermod.Server.Fetch.{get_pr_from_issue_comment_event}
use mattermost_mattermod.Server.IssueCommentEvent.{
  IssueCommentEvent, has_command, run_command, run_commands, handle_comment,
  issue_comment_event_handler,
}

-- The comment has one of the four commands.
abbrev pub commands : IssueCommentEvent → Bool
commands e =
    has_command e "/check-cla"
    || has_command e "/cherry-pick"
    || has_command e "/autoassign"
    || has_command e "/update-branch"

-- A comment without a command on a pull request that can be fetched does nothing but the fetch, and a
-- deleted comment or one on an issue does nothing at all.
issue_comment_event_handler_quiet :
    (s : Server) (e : IssueCommentEvent) (pr : PullRequest) (w : World)
    → commands e ≡ false
    → let fetch =
        get_pr_from_issue_comment_event s e.repo_owner e.repo_name e.issue.number e.action w in
      fetch.0 ≡ returned (ok pr)
      → issue_comment_event_handler s (ok e) w ≡ (
        returned tt,
        if e.issue.is_pull_request && not (e.action == "deleted") then fetch.1 else w,
      )
unfolding issue_comment_event_handler handle_comment run_commands run_command
issue_comment_event_handler_quiet s e pr w quiet fetched = ground arith
