-- ===== src/Server/PullRequestEvent.antt =====
-- server/pull_request_handler.go: pullRequestEventHandler. What a goroutine does is noted as a task.
pub mod Effects
pub mod Sound
use mattermost_mattermod.Base.{
  ℕ, String, Bool, true, false, Option, none, some, ◌==◌, if◌then◌else◌, value_or,
}
use mattermost_mattermod.Model.{PullRequest}
use mattermost_mattermod.World.{check_cherry_pick, clean_up_labels}
use mattermost_mattermod.World.Github.{Error, Result, ok, err, GhPull, Label}
use mattermost_mattermod.World.Config.{get_repository}
use mattermost_mattermod.World.Monad.{
  Server, M, ◌>>=◌, ◌>>◌, pure, deref, done, when, http_error, spawn,
}
use mattermost_mattermod.Server.Github.{comment_on}
use mattermost_mattermod.Server.BlockMerge.{
  is_block_pr_merge, unblock_pr_merge, set_block_status_for_pr,
}
use mattermost_mattermod.Server.Webhook.{handle_translation_pr}
use mattermost_mattermod.Server.Cla.{handle_check_cla}
use mattermost_mattermod.Server.Community.{
  add_hacktoberfest_label, post_pr_welcome_message, assign_greeter, assign_greeting_labels,
}
use mattermost_mattermod.Server.Fetch.{get_pull_request_from_github, pr_event_opened}
use mattermost_mattermod.Server.Changes.{check_pull_request_for_changes}
use mattermost_mattermod.Server.Review.{review_mlog}

abbrev pub server_repo_name : String
server_repo_name = "mattermost-server"

-- The payload; `repo_name` is what `*event.Repo.Name` follows.
pub record PullRequestEvent : Type 0 where
  pub pull_request : GhPull
  pub label : Option Label
  pub repo_name : Option String
  pub action : String

-- The greeter and the greeting labels of a configured repository.
greet : Server → PullRequest → M (Unit {0})
unfolding ◌>>=◌
greet s pr = elim (get_repository s.config.repositories pr.repo_owner pr.repo_name) [
  | none ↦ done
  | some repo ↦ do _ ← assign_greeter s pr repo; _ ← assign_greeting_labels s pr repo; done
]

-- case prEventOpened
unfoldable pub on_opened : Server → PullRequestEvent → PullRequest → M Bool
unfolding ◌>>=◌ greet
on_opened s event pr = do
  cla ← handle_check_cla s pr
  _ ← post_pr_welcome_message s pr cla.0
  add_hacktoberfest_label s pr
  handle_translation_pr s pr
  greet s pr
  when (pr.repo_name == server_repo_name)
      (review_mlog s pr event.pull_request.node_id event.pull_request.diff_url >>= λ _. done)
  set_block_status_for_pr s pr
  pure true

-- case prEventReOpened
unfoldable pub on_reopened : Server → PullRequest → M Bool
unfolding ◌>>=◌
on_reopened s pr = do
  _ ← handle_check_cla s pr
  handle_translation_pr s pr
  set_block_status_for_pr s pr
  pure true

-- The status that a labeled and an unlabeled event set alike.
label_status : Server → PullRequest → Label → M (Unit {0})
unfolding ◌>>=◌ unblock_pr_merge
label_status s pr label = do
  name ← deref label.name
  when (is_block_pr_merge s name) (unblock_pr_merge s pr >>= λ _. done)

-- case prEventLabeled: without a label the handler ends.
unfoldable pub on_labeled : Server → PullRequestEvent → PullRequest → M Bool
unfolding ◌>>=◌ label_status comment_on
on_labeled s event pr = elim event.label [
  | none ↦ pure false
  | some label ↦ do
    label_status s pr label
    when (value_or "" label.name == s.config.auto_pr_merge_label) (
        comment_on s pr
          "Will try to auto merge this PR once all tests and checks are passing. This might take up to an hour.")
    pure true
]

-- case prEventUnLabeled
unfoldable pub on_unlabeled : Server → PullRequestEvent → PullRequest → M Bool
unfolding ◌>>=◌ label_status
on_unlabeled s event pr = elim event.label [
  | none ↦ pure false
  | some label ↦ do label_status s pr label; pure true
]

-- case prEventSynchronize
unfoldable pub on_synchronize : Server → PullRequest → M Bool
unfolding ◌>>=◌
on_synchronize s pr = do _ ← handle_check_cla s pr; set_block_status_for_pr s pr; pure true

-- case prEventClosed
unfoldable pub on_closed : PullRequestEvent → PullRequest → M Bool
unfolding ◌>>=◌
on_closed event pr = do
  _ ← deref event.repo_name
  spawn (check_cherry_pick pr)
  spawn (clean_up_labels pr)
  pure true

-- The switch on the action: false where the handler returns.
on_action : Server → PullRequestEvent → PullRequest → M Bool
unfolding ◌>>=◌
on_action s event pr =
    if event.action == "opened"
    then on_opened s event pr
    else if event.action == "reopened"
    then on_reopened s pr
    else if event.action == "labeled"
    then on_labeled s event pr
    else if event.action == "unlabeled"
    then on_unlabeled s event pr
    else if event.action == "synchronize"
    then on_synchronize s pr
    else if event.action == "closed"
    then on_closed event pr
    else pure true

-- pullRequestEventHandler, on what the JSON decoder gives.
unfoldable pub pull_request_event_handler : Server → Result PullRequestEvent → M (Unit {0})
unfolding ◌>>=◌ on_action
pull_request_event_handler s (err e) = http_error e.text 400
pull_request_event_handler s (ok event) = do
  r ← get_pull_request_from_github s event.pull_request event.action
  elim r [
    | err e ↦ http_error e.text 404
    | ok pr ↦ do
      go_on ← on_action s event pr
      when go_on (check_pull_request_for_changes s pr >>= λ _. done)
  ]
