-- ===== src/Server/PullRequestEvent/Sound.antt =====
-- server/pull_request_handler.go: the handler of a pull request's events keeps the program sound.
use mattermost_mattermod.Base.{refl, ◌==◌, String, true, false, value_or}
use mattermost_mattermod.Model.{PullRequest}
use mattermost_mattermod.World.{Task, check_cherry_pick, clean_up_labels}
use mattermost_mattermod.World.Config.{get_repository}
use mattermost_mattermod.World.Github.{Result, ok, err, Label}
use mattermost_mattermod.World.Monad.{Server, ◌>>=◌, spawn}
use mattermost_mattermod.World.Monad.Keeps.{
  Keeps, Keeps-bind, Keeps-pure, Keeps-if, Keeps-when, Keeps-deref, Keeps-Result, Keeps-Option,
}
use mattermost_mattermod.Server.Frame.{
  comment_on-Same, handle_check_cla-Same, review_mlog-Same, handle_translation_pr-Same,
  add_hacktoberfest_label-Same, post_pr_welcome_message-Same, assign_greeter-Same,
  assign_greeting_labels-Same, set_block_status_for_pr-Same, unblock_pr_merge-Same,
}
use mattermost_mattermod.Server.Github.{comment_on}
use mattermost_mattermod.Server.BlockMerge.{
  is_block_pr_merge, unblock_pr_merge, set_block_status_for_pr,
}
use mattermost_mattermod.Server.Webhook.{handle_translation_pr}
use mattermost_mattermod.Server.Cla.{handle_check_cla}
use mattermost_mattermod.Server.Community.{
  add_hacktoberfest_label, post_pr_welcome_message, assign_greeter, assign_greeting_labels,
}
use mattermost_mattermod.Server.Review.{review_mlog}
use mattermost_mattermod.Server.Changes.Sound.{check_pull_request_for_changes-Sound}
use mattermost_mattermod.Server.Fetch.Sound.{get_pull_request_from_github-Sound}
use mattermost_mattermod.Server.Soundness.{Sound, Keeps-Same, http_error-Sound}
use mattermost_mattermod.Server.PullRequestEvent.{
  PullRequestEvent, server_repo_name, greet, on_opened, on_reopened, label_status, on_labeled,
  on_unlabeled, on_synchronize, on_closed, on_action, pull_request_event_handler,
}

module _ (s : Server) where
  check_cla-Sound : (pr : PullRequest) → Keeps (Sound s) (handle_check_cla s pr)
  check_cla-Sound pr = Keeps-Same s (handle_check_cla s pr) (handle_check_cla-Same s pr)

  translation-Sound : (pr : PullRequest) → Keeps (Sound s) (handle_translation_pr s pr)
  translation-Sound pr = Keeps-Same s (handle_translation_pr s pr) (handle_translation_pr-Same s pr)

  block_status-Sound : (pr : PullRequest) → Keeps (Sound s) (set_block_status_for_pr s pr)
  block_status-Sound pr =
      Keeps-Same s (set_block_status_for_pr s pr) (set_block_status_for_pr-Same s pr)

  greet-Sound : (pr : PullRequest) → Keeps (Sound s) (greet s pr)
  unfolding greet
  greet-Sound pr =
      Keeps-Option (get_repository s.config.repositories pr.repo_owner pr.repo_name) _ _
        (Keeps-pure tt)
        (λ repo.
          Keeps-bind _ _ (Keeps-Same s (assign_greeter s pr repo) (assign_greeter-Same s pr repo))
            (λ _.
              Keeps-bind _ _
                (Keeps-Same s (assign_greeting_labels s pr repo)
                  (assign_greeting_labels-Same s pr repo))
                (λ _. Keeps-pure tt)))

  on_opened-Sound :
      (event : PullRequestEvent) (pr : PullRequest) → Keeps (Sound s) (on_opened s event pr)
  unfolding on_opened
  on_opened-Sound event pr =
      let node_id = event.pull_request.node_id in
      let diff_url = event.pull_request.diff_url in
      Keeps-bind _ _ (check_cla-Sound pr) (λ cla.
        Keeps-bind _ _
          (Keeps-Same s (post_pr_welcome_message s pr cla.0)
            (post_pr_welcome_message-Same s pr cla.0))
          (λ _.
            Keeps-bind _ _
              (Keeps-Same s (add_hacktoberfest_label s pr) (add_hacktoberfest_label-Same s pr))
              (λ _. Keeps-bind _ _ (translation-Sound pr) (λ _.
                Keeps-bind _ _ (greet-Sound pr) (λ _.
                  Keeps-bind _ _
                    (Keeps-when (pr.repo_name == server_repo_name) _ (
                      Keeps-bind _ _
                        (Keeps-Same s (review_mlog s pr node_id diff_url)
                          (review_mlog-Same s pr node_id diff_url))
                        (λ _. Keeps-pure tt)))
                    (λ _. Keeps-bind _ _ (block_status-Sound pr) (λ _. Keeps-pure true)))))))

  on_reopened-Sound : (pr : PullRequest) → Keeps (Sound s) (on_reopened s pr)
  unfolding on_reopened
  on_reopened-Sound pr = Keeps-bind _ _ (check_cla-Sound pr) (λ _.
      Keeps-bind _ _ (translation-Sound pr)
        (λ _. Keeps-bind _ _ (block_status-Sound pr) (λ _. Keeps-pure true)))

  label_status-Sound :
      (pr : PullRequest) (label : Label) → Keeps (Sound s) (label_status s pr label)
  unfolding label_status
  label_status-Sound pr label = Keeps-bind _ _ (Keeps-deref label.name) (λ name.
      Keeps-when (is_block_pr_merge s name) _ (
        Keeps-bind _ _ (Keeps-Same s (unblock_pr_merge s pr) (unblock_pr_merge-Same s pr))
          (λ _. Keeps-pure tt)))

  on_labeled-Sound :
      (event : PullRequestEvent) (pr : PullRequest) → Keeps (Sound s) (on_labeled s event pr)
  unfolding on_labeled
  on_labeled-Sound event pr =
      let msg : String =
        "Will try to auto merge this PR once all tests and checks are passing. This might take up to an hour." in
      Keeps-Option event.label _ _ (Keeps-pure false) (λ label.
        Keeps-bind _ _ (label_status-Sound pr label) (λ _.
          Keeps-bind _ _
            (Keeps-when (value_or "" label.name == s.config.auto_pr_merge_label) _
              (Keeps-Same s (comment_on s pr msg) (comment_on-Same s pr msg)))
            (λ _. Keeps-pure true)))

  on_unlabeled-Sound :
      (event : PullRequestEvent) (pr : PullRequest) → Keeps (Sound s) (on_unlabeled s event pr)
  unfolding on_unlabeled
  on_unlabeled-Sound event pr =
      Keeps-Option event.label _ _ (Keeps-pure false)
        (λ label. Keeps-bind _ _ (label_status-Sound pr label) (λ _. Keeps-pure true))

  on_synchronize-Sound : (pr : PullRequest) → Keeps (Sound s) (on_synchronize s pr)
  unfolding on_synchronize
  on_synchronize-Sound pr =
      Keeps-bind _ _ (check_cla-Sound pr)
        (λ _. Keeps-bind _ _ (block_status-Sound pr) (λ _. Keeps-pure true))

  spawn-Sound : (task : Task) → Keeps (Sound s) (spawn task)
  unfolding ◌>>=◌
  spawn-Sound task = Keeps-Same s (spawn task) (λ w. (refl, refl, refl, refl))

  on_closed-Sound :
      (event : PullRequestEvent) (pr : PullRequest) → Keeps (Sound s) (on_closed event pr)
  unfolding on_closed
  on_closed-Sound event pr = Keeps-bind _ _ (Keeps-deref event.repo_name) (λ _.
      Keeps-bind _ _ (spawn-Sound (check_cherry_pick pr))
        (λ _. Keeps-bind _ _ (spawn-Sound (clean_up_labels pr)) (λ _. Keeps-pure true)))

  on_action-Sound :
      (event : PullRequestEvent) (pr : PullRequest) → Keeps (Sound s) (on_action s event pr)
  unfolding on_action
  on_action-Sound event pr = Keeps-if (event.action == "opened") _ _ (on_opened-Sound event pr) (
      Keeps-if (event.action == "reopened") _ _ (on_reopened-Sound pr) (
        Keeps-if (event.action == "labeled") _ _ (on_labeled-Sound event pr) (
          Keeps-if (event.action == "unlabeled") _ _ (on_unlabeled-Sound event pr) (
            Keeps-if (event.action == "synchronize") _ _ (on_synchronize-Sound pr) (
              Keeps-if (event.action == "closed") _ _ (on_closed-Sound event pr)
                (Keeps-pure true))))))

  pub pull_request_event_handler-Sound :
      (event : Result PullRequestEvent) → Keeps (Sound s) (pull_request_event_handler s event)
  unfolding pull_request_event_handler
  pull_request_event_handler-Sound (err e) = http_error-Sound s e.text 400
  pull_request_event_handler-Sound (ok event) =
      Keeps-bind _ _ (get_pull_request_from_github-Sound s event.pull_request event.action) (λ r.
        Keeps-Result r _ _ (λ e. http_error-Sound s e.text 404)
          (λ pr. Keeps-bind _ _ (on_action-Sound event pr) (λ go_on.
            Keeps-when go_on _
              (Keeps-bind _ _ (check_pull_request_for_changes-Sound s pr) (λ _. Keeps-pure tt)))))
