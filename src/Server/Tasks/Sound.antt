-- ===== src/Server/Tasks/Sound.antt =====
-- The periodic tasks of server/pull_request_handler.go and RefreshMembers keep the program sound.
use mattermost_mattermod.Base.{refl, String, true, arith, any, mem, not, ◌==◌, ◌||◌}
use mattermost_mattermod.Model.{PullRequest, state_closed}
use mattermost_mattermod.World.{World}
use mattermost_mattermod.World.Github.{GhPull, Label}
use mattermost_mattermod.World.Monad.{Server, ◌>>=◌, modify}
use mattermost_mattermod.World.Monad.Keeps.{
  Keeps, Keeps-bind, Keeps-pure, Keeps-if, Keeps-when, Keeps-deref, Keeps-gets, Keeps-Result,
  Keeps-for_each, Keeps-for_while,
}
use mattermost_mattermod.World.Frame.{Same, for_each-Same}
use mattermost_mattermod.Store.PullRequests
use mattermost_mattermod.Server.Pages.{get_members}
use mattermost_mattermod.Server.Webhook.{log_to_mattermost}
use mattermost_mattermod.Server.Github.{
  get_pull, get_state, list_labels, labels_to_string_array, remove_label,
}
use mattermost_mattermod.Server.Members.{is_org_member}
use mattermost_mattermod.Server.Frame.{
  labels_to_string_array-Same, get_pull-Same, list_labels-Same, list_open-Same, get_members-Same,
  log_to_mattermost-Same,
}
use mattermost_mattermod.Server.Soundness.{Sound, Keeps-Same, save-Sound, timed-Sound}
use mattermost_mattermod.Server.Tasks.{
  cron_error, mark_stale, check_labels, is_stale, check_age, check_activity_of, check_pr_activity,
  save_closed, clean_outdated, clean_outdated_prs, clean_up_label, clean_up_labels, refresh_members,
}

mark_stale-Same : (s : Server) (pr : PullRequest) (w : World) → Same w (mark_stale s pr w).1
unfolding mark_stale
mark_stale-Same s pr w = ground arith

clean_up_label-Same :
    (s : Server) (pr : PullRequest) (label : Label) (w : World)
    → Same w (clean_up_label s pr label w).1
unfolding clean_up_label remove_label
clean_up_label-Same s pr label w =
    for_each-Same s.config.issue_labels_to_clean_up _ w (λ l w. ground arith)

module _ (s : Server) where
  pub cron_error-Sound : (name : String) → Keeps (Sound s) (cron_error name)
  unfolding ◌>>=◌
  cron_error-Sound name = Keeps-Same s (cron_error name) (λ w. (refl, refl, refl, refl))

  check_labels-Sound : (pr : PullRequest) → Keeps (Sound s) (check_labels s pr)
  unfolding check_labels
  check_labels-Sound pr =
      Keeps-bind _ _
        (Keeps-Same s (list_labels s pr.repo_owner pr.repo_name pr.number)
          (list_labels-Same s pr.repo_owner pr.repo_name pr.number))
        (λ r.
          Keeps-Result r _ _ (λ e. cron_error-Sound "check_pr_activity")
            (λ labels.
              Keeps-bind _ _
                (Keeps-Same s (labels_to_string_array labels) (labels_to_string_array-Same labels))
                (λ names.
                  Keeps-when (not (any (λ label. mem label s.config.exempt_stale_labels) names)) _
                    (Keeps-Same s (mark_stale s pr) (mark_stale-Same s pr)))))

  check_age-Sound : (pr : PullRequest) (pull : GhPull) → Keeps (Sound s) (check_age s pr pull)
  unfolding check_age
  check_age-Sound pr pull = Keeps-bind _ _ (Keeps-gets _) (λ now.
      Keeps-bind _ _ (Keeps-deref pull.updated_at)
        (λ updated_at. Keeps-when (is_stale s now updated_at) _ (check_labels-Sound pr)))

  check_activity_of-Sound : (pr : PullRequest) → Keeps (Sound s) (check_activity_of s pr)
  unfolding check_activity_of
  check_activity_of-Sound pr =
      Keeps-bind _ _
        (Keeps-Same s (get_pull s pr.repo_owner pr.repo_name pr.number)
          (get_pull-Same s pr.repo_owner pr.repo_name pr.number))
        (λ r.
          Keeps-Result r _ _ (λ e. Keeps-pure tt)
            (λ pull. Keeps-bind _ _ (Keeps-deref pull.state) (λ state.
              Keeps-bind _ _
                (Keeps-Same s (is_org_member pr.username) (λ w. (refl, refl, refl, refl)))
                (λ member.
                  Keeps-if (state == state_closed || member) _ _ (Keeps-pure tt)
                    (check_age-Sound pr pull)))))

  list_open-Sound : Keeps (Sound s) (PullRequests.list_open s)
  list_open-Sound = Keeps-Same s (PullRequests.list_open s) (list_open-Same s)

  pub check_pr_activity-Sound : Keeps (Sound s) (check_pr_activity s)
  unfolding check_pr_activity
  check_pr_activity-Sound = timed-Sound s _ _ (
      Keeps-bind _ _ list_open-Sound (λ r.
        Keeps-Result r _ _ (λ e. cron_error-Sound "check_pr_activity")
          (λ prs. Keeps-for_each prs _ check_activity_of-Sound)))

  save_closed-Sound : (pr : PullRequest) (pull : GhPull) → Keeps (Sound s) (save_closed s pr pull)
  unfolding save_closed
  save_closed-Sound pr pull =
      Keeps-bind _ _ (save-Sound s (record pr { state = get_state pull })) (λ r.
        Keeps-Result r _ _
          (λ e. Keeps-bind _ _ (cron_error-Sound "clean_outdated_prs") (λ _. Keeps-pure true))
          (λ _. Keeps-pure true))

  clean_outdated-Sound : (pr : PullRequest) → Keeps (Sound s) (clean_outdated s pr)
  unfolding clean_outdated
  clean_outdated-Sound pr =
      Keeps-bind _ _
        (Keeps-Same s (get_pull s pr.repo_owner pr.repo_name pr.number)
          (get_pull-Same s pr.repo_owner pr.repo_name pr.number))
        (λ r.
          Keeps-Result r _ _ (λ e. Keeps-pure (not e.rate_limit))
            (λ pull.
              Keeps-if (get_state pull == state_closed) _ _ (save_closed-Sound pr pull)
                (Keeps-pure true)))

  pub clean_outdated_prs-Sound : Keeps (Sound s) (clean_outdated_prs s)
  unfolding clean_outdated_prs
  clean_outdated_prs-Sound = timed-Sound s _ _ (
      Keeps-bind _ _ list_open-Sound (λ r.
        Keeps-Result r _ _ (λ e. cron_error-Sound "clean_outdated_prs")
          (λ prs. Keeps-for_while prs _ clean_outdated-Sound)))

  pub clean_up_labels-Sound : (pr : PullRequest) → Keeps (Sound s) (clean_up_labels s pr)
  unfolding clean_up_labels
  clean_up_labels-Sound pr = Keeps-if _ _ _ (Keeps-pure tt) (
      Keeps-bind _ _
        (Keeps-Same s (list_labels s pr.repo_owner pr.repo_name pr.number)
          (list_labels-Same s pr.repo_owner pr.repo_name pr.number))
        (λ r.
          Keeps-Result r _ _ (λ e. Keeps-pure tt)
            (λ labels.
              Keeps-for_each labels _
                (λ l. Keeps-Same s (clean_up_label s pr l) (clean_up_label-Same s pr l)))))

  pub refresh_members-Sound : Keeps (Sound s) (refresh_members s)
  unfolding refresh_members
  refresh_members-Sound = timed-Sound s _ _ (
      Keeps-bind _ _ (Keeps-Same s (get_members s) (get_members-Same s)) (λ r.
        Keeps-Result r _ _
          (λ e.
            Keeps-bind _ _ (Keeps-Same s (log_to_mattermost s _) (log_to_mattermost-Same s _))
              (λ _. cron_error-Sound "refresh_members"))
          (λ members.
            Keeps-Same s (modify (λ w. record w { org_members = members }))
              (λ w. (refl, refl, refl, refl)))))
