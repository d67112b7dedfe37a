-- ===== src/Server/Tasks.antt =====
-- server/pull_request_handler.go and server/server.go: the periodic tasks CheckPRActivity,
-- CleanOutdatedPRs and RefreshMembers, and the goroutine CleanUpLabels.
pub mod Stale
pub mod Sound
use mattermost_mattermod.Base.{
  ℕ, String, Bool, true, ◌+◌, ◌*◌, ◌||◌, none, some, [], ◌∷◌, ◌==◌, not, if◌then◌else◌, leb, any,
  mem, is_nil, value_or,
}
use mattermost_mattermod.Base.Text.{◌+++◌}
use mattermost_mattermod.Model.{PullRequest, state_closed}
use mattermost_mattermod.World.{counted}
use mattermost_mattermod.World.Github.{ok, err, GhPull, Label}
use mattermost_mattermod.World.Monad.{
  Server, M, ◌>>=◌, ◌>>◌, pure, done, deref, gets, modify, emit, when, for_each, for_while, timed,
}
use mattermost_mattermod.Store.PullRequests
use mattermost_mattermod.Server.Pages.{get_members}
use mattermost_mattermod.Server.Github.{
  comment_on, get_pull, get_state, list_labels, labels_to_string_array, add_labels, remove_label,
}
use mattermost_mattermod.Server.Members.{is_org_member}
use mattermost_mattermod.Server.Webhook.{log_to_mattermost}

-- IncreaseCronTaskErrors
abbrev pub cron_error : String → M (Unit {0})
cron_error name = emit (counted "IncreaseCronTaskErrors" name)

-- The stale label and its comment.
mark_stale : Server → PullRequest → M (Unit {0})
unfolding ◌>>=◌ add_labels comment_on
mark_stale s pr = do
  e ← add_labels s pr (s.config.stale_label ∷ [])
  elim e [ some _ ↦ cron_error "check_pr_activity" | none ↦ comment_on s pr s.config.stale_comment ]

-- A pull request that was left alone is marked, unless a label exempts it.
check_labels : Server → PullRequest → M (Unit {0})
unfolding ◌>>=◌ list_labels labels_to_string_array mark_stale
check_labels s pr = do
  r ← list_labels s pr.repo_owner pr.repo_name pr.number
  elim r [
    | err e ↦ cron_error "check_pr_activity"
    | ok labels ↦ do
      names ← labels_to_string_array labels
      when (not (any (λ label. mem label s.config.exempt_stale_labels) names)) (mark_stale s pr)
  ]

-- Is the update `days_until_stale` days old? A day has 86400 seconds.
unfoldable pub is_stale : Server → ℕ → ℕ → Bool
is_stale s now updated_at = leb (updated_at + s.config.days_until_stale * 86400) now

-- The part of a round for an open pull request of a community member.
check_age : Server → PullRequest → GhPull → M (Unit {0})
unfolding ◌>>=◌ check_labels is_stale
check_age s pr pull = do
  now ← gets (λ w. s.outside.now w.trace)
  updated_at ← deref pull.updated_at
  when (is_stale s now updated_at) (check_labels s pr)

-- One round of the loop of CheckPRActivity.
unfoldable pub check_activity_of : Server → PullRequest → M (Unit {0})
unfolding ◌>>=◌ get_pull check_age is_org_member
check_activity_of s pr = do
  r ← get_pull s pr.repo_owner pr.repo_name pr.number
  elim r [
    | err e ↦ done
    | ok pull ↦ do
      state ← deref pull.state
      member ← is_org_member pr.username
      if state == state_closed || member then done else check_age s pr pull
  ]

-- CheckPRActivity
unfoldable pub check_pr_activity : Server → M (Unit {0})
unfolding ◌>>=◌ timed for_each PullRequests.list_open check_activity_of
check_pr_activity s = timed "check_pr_activity" do
  r ← PullRequests.list_open s
  elim r [ err e ↦ cron_error "check_pr_activity" | ok prs ↦ for_each prs (check_activity_of s) ]

-- A closed pull request is stored as closed.
save_closed : Server → PullRequest → GhPull → M Bool
unfolding ◌>>=◌ PullRequests.save
save_closed s pr pull = do
  r ← PullRequests.save s (record pr { state = get_state pull })
  elim r as (λ r. M Bool) [
    | ok _ ↦ pure true
    | err e ↦ cron_error "clean_outdated_prs" >> pure true
  ]

-- One round of the loop of CleanOutdatedPRs: false where it returns.
unfoldable pub clean_outdated : Server → PullRequest → M Bool
unfolding ◌>>=◌ get_pull save_closed
clean_outdated s pr = do
  r ← get_pull s pr.repo_owner pr.repo_name pr.number
  elim r [
    | err e ↦ pure (not e.rate_limit)
    | ok pull ↦ if get_state pull == state_closed then save_closed s pr pull else pure true
  ]

-- CleanOutdatedPRs
unfoldable pub clean_outdated_prs : Server → M (Unit {0})
unfolding ◌>>=◌ timed for_while PullRequests.list_open clean_outdated
clean_outdated_prs s = timed "clean_outdated_prs" do
  r ← PullRequests.list_open s
  elim r [ err e ↦ cron_error "clean_outdated_prs" | ok prs ↦ for_while prs (clean_outdated s) ]

-- The loops of CleanUpLabels; the goroutines are waited for, and run here in the order of the loops.
unfoldable pub clean_up_label : Server → PullRequest → Label → M (Unit {0})
unfolding ◌>>=◌ for_each remove_label
clean_up_label s pr label = for_each s.config.issue_labels_to_clean_up λ label_to_remove.
    when (value_or "" label.name == label_to_remove)
      (remove_label s pr.repo_owner pr.repo_name pr.number label_to_remove)

-- CleanUpLabels
unfoldable pub clean_up_labels : Server → PullRequest → M (Unit {0})
unfolding ◌>>=◌ list_labels for_each clean_up_label
clean_up_labels s pr = do
  let clean = do
    r ← list_labels s pr.repo_owner pr.repo_name pr.number
    elim r as (λ r. M (Unit {0})) [
      | err e ↦ done
      | ok labels ↦ for_each labels (clean_up_label s pr)
    ]
  if is_nil s.config.issue_labels_to_clean_up then done else clean

-- RefreshMembers. The list of getMembers is never nil, so an empty one is taken over.
unfoldable pub refresh_members : Server → M (Unit {0})
unfolding ◌>>=◌ timed get_members log_to_mattermost
refresh_members s = timed "refresh_members" do
  r ← get_members s
  elim r [
    | err e ↦ do
      log_to_mattermost s ("refresh failed, using org members of previous day\n" +++ e.text)
      cron_error "refresh_members"
    | ok members ↦ modify (λ w. record w { org_members = members })
  ]
