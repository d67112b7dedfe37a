-- ===== src/Server/Github.antt =====
-- server/github.go, server/utils.go and server/server.go: the small helpers of the handlers.
use mattermost_mattermod.Base.{
  ℕ, String, Bool, true, false, Option, List, [], ◌∷◌, ◌==◌, if◌then◌else◌, value_or,
}
use mattermost_mattermod.Base.Text.{contains}
use mattermost_mattermod.Model.{PullRequest}
use mattermost_mattermod.World.{
  created_comment, created_status, removed_label, got_labels, got_pull, added_labels,
  requested_reviewers,
}
use mattermost_mattermod.World.Github.{Error, Result, Label, Comment, RepoStatus, GhPull}
use mattermost_mattermod.World.Monad.{Server, M, ◌>>=◌, pure, deref, done, ask, write}

-- sendGitHubComment
unfoldable pub send_github_comment : Server → String → String → ℕ → String → M (Option Error)
unfolding ◌>>=◌
send_github_comment s owner name number comment =
    write s (created_comment owner name number comment)

-- The same on a pull request, where the error is only logged.
unfoldable pub comment_on : Server → PullRequest → String → M (Unit {0})
unfolding ◌>>=◌ send_github_comment
comment_on s pr msg = do _ ← send_github_comment s pr.repo_owner pr.repo_name pr.number msg; done

-- removeLabel
unfoldable pub remove_label : Server → String → String → ℕ → String → M (Unit {0})
unfolding ◌>>=◌
remove_label s owner name number label = do
  _ ← write s (removed_label owner name number label)
  done

-- labelsToStringArray, which follows the name of each label.
unfoldable pub labels_to_string_array : List Label → M (List String)
unfolding ◌>>=◌
labels_to_string_array [] = pure []
labels_to_string_array (label ∷ labels) = do
  name ← deref label.name
  names ← labels_to_string_array labels
  pure (name ∷ names)

-- Issues.ListLabelsByIssue
unfoldable pub list_labels : Server → String → String → ℕ → M (Result (List Label))
unfolding ◌>>=◌
list_labels s owner name number =
    ask (λ t. s.outside.labels t owner name number) (got_labels owner name number)

-- createRepoStatus
unfoldable pub create_repo_status : Server → PullRequest → RepoStatus → M (Option Error)
unfolding ◌>>=◌
create_repo_status s pr status = write s (created_status pr.repo_owner pr.repo_name pr.sha status)

-- messageByUserContains: a comment of another user is not read further.
unfoldable pub message_by_user_contains : List Comment → String → String → M Bool
unfolding ◌>>=◌ contains
message_by_user_contains [] username text = pure false
message_by_user_contains (comment ∷ comments) username text = do
  login ← deref comment.login
  let rest = message_by_user_contains comments username text
  let matched = do body ← deref comment.body; if contains body text then pure true else rest
  if login == username then matched else rest

-- GetState of a GitHub pull request.
abbrev pub get_state : GhPull → String
get_state pull = value_or "" pull.state

-- PullRequests.Get
unfoldable pub get_pull : Server → String → String → ℕ → M (Result GhPull)
unfolding ◌>>=◌
get_pull s owner name number =
    ask (λ t. s.outside.pull t owner name number) (got_pull owner name number)

-- Issues.AddLabelsToIssue
unfoldable pub add_labels : Server → PullRequest → List String → M (Option Error)
unfolding ◌>>=◌
add_labels s pr labels = write s (added_labels pr.repo_owner pr.repo_name pr.number labels)

-- PullRequests.RequestReviewers
unfoldable pub request_reviewers :
    Server → PullRequest → ℕ → List String → List String → M (Option Error)
unfolding ◌>>=◌
request_reviewers s pr number users teams =
    write s (requested_reviewers pr.repo_owner pr.repo_name number users teams)
