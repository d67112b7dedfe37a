-- ===== src/Server/IssueEvent/Sound.antt =====
-- server/issue_handler.go and server/pr_from_issue_handler.go keep the program sound.
use mattermost_mattermod.Base.{ℕ, String, some, List, [], ◌∷◌, arith, mem}
use mattermost_mattermod.Base.Text.{replace_all}
use mattermost_mattermod.Model.{Issue, Key, issue_key}
use mattermost_mattermod.World.{World}
use mattermost_mattermod.World.Github.{Result, ok, err, Comment}
use mattermost_mattermod.World.Config.{LabelResponse}
use mattermost_mattermod.World.Monad.{Server, M}
use mattermost_mattermod.World.Monad.Keeps.{
  Keeps, Keeps-bind, Keeps-pure, Keeps-if, Keeps-Result, Keeps-Option, Keeps-for_each,
  Keeps-attempt,
}
use mattermost_mattermod.World.Frame.{Same}
use mattermost_mattermod.Store.PullRequests
use mattermost_mattermod.Store.Issues
use mattermost_mattermod.Server.Pages.{get_comments}
use mattermost_mattermod.Server.Frame.{
  message_by_user_contains-world, get_comments-Same, get_pr-Same, get_issue-Same,
}
use mattermost_mattermod.Server.Github.{send_github_comment}
use mattermost_mattermod.Server.Soundness.{
  Sound, Keeps-Same, save-Sound, save_issue-Sound, lock-Sound, http_error-Sound,
}
use mattermost_mattermod.Server.Fetch.Sound.{get_issue_from_github-Sound}
use mattermost_mattermod.Server.IssueEvent.{
  IssueEvent, answer_issue_label, handle_issue_labeled, wrapped, handle_new_labels, save_issue,
  compare_issue, check_issue_for_changes, issue_event_handler, update_milestone, with_milestone,
  pr_from_issue_handler,
}

answer_issue_label-Same :
    (s : Server) (issue : Issue) (added : String) (comments : List Comment) (label : LabelResponse)
    (w : World)
    → Same w (answer_issue_label s issue added comments label w).1
unfolding answer_issue_label send_github_comment
answer_issue_label-Same s issue added comments label w = ground (
  arith,
  message_by_user_contains-world comments s.config.username
      (replace_all label.message "USERNAME" issue.username) w,
)

module _ (s : Server) where
  handle_issue_labeled-Sound :
      (issue : Issue) (label : String) → Keeps (Sound s) (handle_issue_labeled s issue label)
  unfolding handle_issue_labeled
  handle_issue_labeled-Sound issue label = lock-Sound s _ (
      Keeps-bind _ _
        (Keeps-Same s (get_comments s issue.repo_owner issue.repo_name issue.number)
          (get_comments-Same s issue.repo_owner issue.repo_name issue.number))
        (λ r.
          Keeps-Result r _ _ (λ e. Keeps-pure _)
            (λ comments.
              Keeps-bind _ _
                (Keeps-for_each s.config.issue_labels _ (λ a.
                  Keeps-Same s (answer_issue_label s issue label comments a)
                    (answer_issue_label-Same s issue label comments a)))
                (λ _. Keeps-pure _))))

  wrapped-Sound :
      {A : Type 0} (msg : String) (m : M (Result A))
      → Keeps (Sound s) m
      → Keeps (Sound s) (wrapped msg m)
  unfolding wrapped
  wrapped-Sound msg m k =
      Keeps-bind m _ k (λ r. Keeps-Result r _ _ (λ e. Keeps-pure _) (λ a. Keeps-pure _))

  handle_new_labels-Sound :
      (issue : Issue) (old labels : List String)
      → Keeps (Sound s) (handle_new_labels s issue old labels)
  unfolding handle_new_labels
  handle_new_labels-Sound issue old [] = Keeps-pure _
  handle_new_labels-Sound issue old (label ∷ labels) =
      let rest = handle_new_labels-Sound issue old labels in
      Keeps-if (mem label old) _ _ rest (
        Keeps-attempt _ _ (wrapped-Sound _ _ (handle_issue_labeled-Sound issue label))
          (λ _. Keeps-attempt _ _ rest (λ _. Keeps-pure _)))

  save_issue_error-Sound : (issue : Issue) → Keeps (Sound s) (save_issue s issue)
  unfolding save_issue
  save_issue_error-Sound issue =
      Keeps-bind _ _ (save_issue-Sound s issue)
        (λ r. Keeps-Result r _ _ (λ e. Keeps-pure _) (λ _. Keeps-pure _))

  compare_issue-Sound : (old issue : Issue) → Keeps (Sound s) (compare_issue s old issue)
  unfolding compare_issue
  compare_issue-Sound old issue =
      Keeps-bind _ _ (handle_new_labels-Sound issue old.labels issue.labels) (λ r.
        Keeps-Result r _ _ (λ e. Keeps-pure _)
          (λ added. Keeps-if _ _ _ (save_issue_error-Sound issue) (Keeps-pure _)))

  pub check_issue_for_changes-Sound :
      (issue : Issue) → Keeps (Sound s) (check_issue_for_changes s issue)
  unfolding check_issue_for_changes
  check_issue_for_changes-Sound issue =
      Keeps-bind _ _
        (Keeps-Same s (Issues.get s (issue_key issue)) (get_issue-Same s (issue_key issue)))
        (λ r.
          Keeps-Result r _ _ (λ e. Keeps-pure (some e))
            (λ row.
              Keeps-Option row _ _ (save_issue_error-Sound issue)
                (λ old. compare_issue-Sound old issue)))

  pub issue_event_handler-Sound :
      (event : Result IssueEvent) → Keeps (Sound s) (issue_event_handler s event)
  unfolding issue_event_handler
  issue_event_handler-Sound (err e) = http_error-Sound s e.text 400
  issue_event_handler-Sound (ok event) =
      Keeps-bind _ _ (get_issue_from_github-Sound s event.issue) (λ r.
        Keeps-Result r _ _ (λ e. http_error-Sound s "could not get the issue from GitHub" 500)
          (λ issue.
            Keeps-bind _ _ (check_issue_for_changes-Sound issue)
              (λ e. Keeps-Option e _ _ (Keeps-pure tt) (λ e. http_error-Sound s e.text 500))))

  update_milestone-Sound : (k : Key) (m : ℕ × String) → Keeps (Sound s) (update_milestone s k m)
  unfolding update_milestone
  update_milestone-Sound k m =
      Keeps-bind _ _ (Keeps-Same s (PullRequests.get s k) (get_pr-Same s k)) (λ r.
        Keeps-Result r _ _ (λ e. http_error-Sound s e.text 500)
          (λ row. Keeps-Option row _ _ (Keeps-pure tt) (λ old.
            Keeps-bind _ _ (save-Sound s (with_milestone old m)) (λ saved.
              Keeps-Result saved _ _ (λ e. http_error-Sound s e.text 500) (λ _. Keeps-pure tt)))))

  pub pr_from_issue_handler-Sound :
      (event : IssueEvent) → Keeps (Sound s) (pr_from_issue_handler s event)
  unfolding pr_from_issue_handler
  pr_from_issue_handler-Sound event =
      Keeps-Option event.issue.milestone _ _ (Keeps-pure tt) (update_milestone-Sound _)
