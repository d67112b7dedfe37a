-- ===== src/Server/IssueCommentEvent/Sound.antt =====
-- server/issue_comment_handler.go: the commands in comments keep the program sound.
use mattermost_mattermod.Base.{refl, ◌==◌, ◌++◌, String, Bool, Option, [], ◌∷◌, not, is_nil}
use mattermost_mattermod.Model.{PullRequest}
use mattermost_mattermod.World.{counted}
use mattermost_mattermod.World.Github.{Error, Result, ok, err}
use mattermost_mattermod.World.Monad.{Server, M, ◌>>=◌, emit, wrap}
use mattermost_mattermod.World.Monad.Keeps.{
  Keeps, Keeps-bind, Keeps-pure, Keeps-if, Keeps-when, Keeps-Result, Keeps-Option,
}
use mattermost_mattermod.Server.Frame.{
  handle_check_cla-Same, handle_auto_assign-Same, handle_update_branch-Same,
}
use mattermost_mattermod.Server.Cla.{handle_check_cla}
use mattermost_mattermod.Server.AutoAssign.{handle_auto_assign}
use mattermost_mattermod.Server.UpdateBranch.{handle_update_branch}
use mattermost_mattermod.Server.CherryPick.Sound.{handle_cherry_pick-Sound}
use mattermost_mattermod.Server.Fetch.Sound.{get_pr_from_issue_comment_event-Sound}
use mattermost_mattermod.Server.Soundness.{Sound, Keeps-Same, http_error-Sound}
use mattermost_mattermod.Server.IssueCommentEvent.{
  IssueCommentEvent, has_command, run_command, check_cla_error, run_commands, handle_comment,
  issue_comment_event_handler,
}

module _ (s : Server) where
  counted-Sound : (metric name : String) → Keeps (Sound s) (emit (counted metric name))
  unfolding ◌>>=◌
  counted-Sound metric name =
      Keeps-Same s (emit (counted metric name)) (λ w. (refl, refl, refl, refl))

  run_command-Sound :
      (wanted : Bool) (name msg : String) (handle : M (Option Error))
      → Keeps (Sound s) handle
      → Keeps (Sound s) (run_command wanted name msg handle)
  unfolding run_command
  run_command-Sound wanted name msg handle k =
      Keeps-if wanted _ _
        (Keeps-bind _ _ (counted-Sound "IncreaseWebhookRequest" name) (λ _. Keeps-bind _ _ k (λ e.
          Keeps-Option e _ _ (Keeps-pure []) (λ e.
            Keeps-bind _ _ (counted-Sound "IncreaseWebhookErrors" name)
              (λ _. Keeps-pure (wrap msg e ∷ []))))))
        (Keeps-pure [])

  check_cla_error-Sound : (pr : PullRequest) → Keeps (Sound s) (check_cla_error s pr)
  unfolding check_cla_error
  check_cla_error-Sound pr =
      Keeps-bind _ _ (Keeps-Same s (handle_check_cla s pr) (handle_check_cla-Same s pr))
        (λ r. Keeps-pure r.1)

  run_commands-Sound :
      (ev : IssueCommentEvent) (pr : PullRequest) → Keeps (Sound s) (run_commands s ev pr)
  unfolding run_commands
  run_commands-Sound ev pr =
      let url = ev.comment.html_url in
      let login = ev.comment.login in
      Keeps-bind _ _
        (run_command-Sound (has_command ev "/check-cla") "check_cla" "error checking CLA"
          (check_cla_error s pr) (check_cla_error-Sound pr))
        (λ cla.
          Keeps-bind _ _
            (run_command-Sound (has_command ev "/cherry-pick") "cherry_pick" "error cherry picking"
              _ (handle_cherry_pick-Sound s login ev.comment.body pr))
            (λ cherry_pick.
              Keeps-bind _ _
                (run_command-Sound (has_command ev "/autoassign") "auto_assign"
                  "error auto assigning" _
                  (Keeps-Same s (handle_auto_assign s url pr) (handle_auto_assign-Same s url pr)))
                (λ auto_assign.
                  Keeps-bind _ _
                    (run_command-Sound (has_command ev "/update-branch") "update_branch"
                      "error updating branch" _
                      (Keeps-Same s (handle_update_branch s login pr)
                        (handle_update_branch-Same s login pr)))
                    (λ update_branch.
                      Keeps-pure (cla ++ (cherry_pick ++ (auto_assign ++ update_branch)))))))

  handle_comment-Sound : (ev : IssueCommentEvent) → Keeps (Sound s) (handle_comment s ev)
  unfolding handle_comment
  handle_comment-Sound ev =
      Keeps-bind _ _
        (get_pr_from_issue_comment_event-Sound s ev.repo_owner ev.repo_name ev.issue.number
          ev.action)
        (λ r.
          Keeps-Result r _ _ (λ e. http_error-Sound s e.text 500)
            (λ pr. Keeps-bind _ _ (run_commands-Sound ev pr) (λ errs.
              Keeps-when (not (is_nil errs)) _
                (http_error-Sound s "Error handling PR comment" 500))))

  pub issue_comment_event_handler-Sound :
      (event : Result IssueCommentEvent) → Keeps (Sound s) (issue_comment_event_handler s event)
  unfolding issue_comment_event_handler
  issue_comment_event_handler-Sound (err e) = http_error-Sound s e.text 400
  issue_comment_event_handler-Sound (ok ev) =
      Keeps-if (not ev.issue.is_pull_request) _ _ (Keeps-pure tt)
        (Keeps-if (ev.action == "deleted") _ _ (Keeps-pure tt) (handle_comment-Sound ev))
