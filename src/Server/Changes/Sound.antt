-- ===== src/Server/Changes/Sound.antt =====
-- server/pull_request_handler.go: checkPullRequestForChanges keeps the program sound.
use mattermost_mattermod.Base.{String, Option, List, arith}
use mattermost_mattermod.Base.Text.{replace_all}
use mattermost_mattermod.Model.{PullRequest, pr_key}
use mattermost_mattermod.World.{World}
use mattermost_mattermod.World.Github.{Error, Comment}
use mattermost_mattermod.World.Config.{LabelResponse}
use mattermost_mattermod.World.Monad.{Server, M}
use mattermost_mattermod.World.Monad.Keeps.{
  Keeps, Keeps-bind, Keeps-pure, Keeps-if, Keeps-Result, Keeps-Option, Keeps-for_each,
}
use mattermost_mattermod.World.Frame.{Same}
use mattermost_mattermod.Store.PullRequests
use mattermost_mattermod.Server.Frame.{
  get_pr-Same, message_by_user_contains-world, get_comments-Same,
}
use mattermost_mattermod.Server.Pages.{get_comments}
use mattermost_mattermod.Server.Github.{comment_on}
use mattermost_mattermod.Server.Soundness.{Sound, Keeps-Same, save-Sound, lock-Sound}
use mattermost_mattermod.Server.Changes.{
  answer_label, handle_pr_labeled, handle_pr_unlabeled, compare_labels, labels_differ, first_seen,
  compare_stored, check_pull_request_for_changes,
}

answer_label-Same :
    (s : Server) (pr : PullRequest) (added : String) (comments : List Comment)
    (label : LabelResponse) (w : World)
    → Same w (answer_label s pr added comments label w).1
unfolding answer_label comment_on
answer_label-Same s pr added comments label w = ground (
  arith,
  message_by_user_contains-world comments s.config.username
      (replace_all label.message "USERNAME" pr.username) w,
)

module _ (s : Server) (pr : PullRequest) where
  pub handle_pr_labeled-Sound : (label : String) → Keeps (Sound s) (handle_pr_labeled s pr label)
  unfolding handle_pr_labeled
  handle_pr_labeled-Sound label = lock-Sound s _ (
      Keeps-bind _ _
        (Keeps-Same s (get_comments s pr.repo_owner pr.repo_name pr.number)
          (get_comments-Same s pr.repo_owner pr.repo_name pr.number))
        (λ r.
          Keeps-Result r _ _ (λ e. Keeps-pure _)
            (λ comments.
              Keeps-bind _ _
                (Keeps-for_each s.config.pr_labels _ (λ a.
                  Keeps-Same s (answer_label s pr label comments a)
                    (answer_label-Same s pr label comments a)))
                (λ _. Keeps-pure _))))

  handle_pr_unlabeled-Sound : (label : String) → Keeps (Sound s) (handle_pr_unlabeled s pr label)
  unfolding handle_pr_unlabeled
  handle_pr_unlabeled-Sound label = lock-Sound s _ (Keeps-pure _)

  compare_labels-Sound :
      (src dst : List String) (f : String → M (Option Error))
      → ((label : String) → Keeps (Sound s) (f label))
      → Keeps (Sound s) (compare_labels src dst f)
  unfolding compare_labels
  compare_labels-Sound src dst f k =
      Keeps-Option _ _ _ (Keeps-pure _) (λ label. Keeps-bind _ _ (k label) (λ _. Keeps-pure _))

  labels_differ-Sound : (old : PullRequest) → Keeps (Sound s) (labels_differ s old pr)
  unfolding labels_differ
  labels_differ-Sound old =
      Keeps-bind _ _
        (compare_labels-Sound pr.labels old.labels (handle_pr_labeled s pr) handle_pr_labeled-Sound)
        (λ added. Keeps-if added _ _ (Keeps-pure _) (
          compare_labels-Sound old.labels pr.labels (handle_pr_unlabeled s pr)
            handle_pr_unlabeled-Sound))

  first_seen-Sound : Keeps (Sound s) (first_seen s pr)
  unfolding first_seen
  first_seen-Sound = Keeps-bind _ _ (save-Sound s pr) (λ _.
      Keeps-bind _ _
        (Keeps-for_each pr.labels _
          (λ label. Keeps-bind _ _ (handle_pr_labeled-Sound label) (λ _. Keeps-pure _)))
        (λ _. Keeps-pure _))

  compare_stored-Sound : (old : PullRequest) → Keeps (Sound s) (compare_stored s old pr)
  unfolding compare_stored
  compare_stored-Sound old = Keeps-bind _ _ (labels_differ-Sound old) (λ relabeled.
      Keeps-if _ _ _
        (Keeps-bind _ _ (save-Sound s pr)
          (λ r. Keeps-Result r _ _ (λ e. Keeps-pure _) (λ _. Keeps-pure _)))
        (Keeps-pure _))

  pub check_pull_request_for_changes-Sound : Keeps (Sound s) (check_pull_request_for_changes s pr)
  unfolding check_pull_request_for_changes
  check_pull_request_for_changes-Sound =
      Keeps-bind _ _ (Keeps-Same s (PullRequests.get s (pr_key pr)) (get_pr-Same s (pr_key pr)))
        (λ r.
          Keeps-Result r _ _ (λ e. Keeps-pure _)
            (λ row. Keeps-Option row _ _ first_seen-Sound compare_stored-Sound))
