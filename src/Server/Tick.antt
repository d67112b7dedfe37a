-- ===== src/Server/Tick.antt =====
-- server/server.go: Tick, the periodic synchronisation of all repositories.
pub mod Progress
pub mod Sound
use mattermost_mattermod.Base.{
  ℕ, zero, suc, String, Bool, true, false, Option, none, some, List, [], ◌∷◌, not, if◌then◌else◌,
  nat_eq,
}
use mattermost_mattermod.World.{World, listed_pulls, listed_issues}
use mattermost_mattermod.World.Github.{Error, Result, ok, err, GhPull, GhIssue, Page}
use mattermost_mattermod.World.Config.{Repository}
use mattermost_mattermod.World.Monad.{
  Server, M, ◌>>=◌, ◌>>◌, pure, done, ask, out_of_fuel, for_each, timed,
}
use mattermost_mattermod.Server.Fetch.{get_pull_request_from_github, get_issue_from_github}
use mattermost_mattermod.Server.Changes.{check_pull_request_for_changes}
use mattermost_mattermod.Server.IssueEvent.{check_issue_for_changes}
use mattermost_mattermod.Server.Tasks.{cron_error}

-- One pull request of a page.
unfoldable pub tick_pull : Server → GhPull → M (Unit {0})
unfolding ◌>>=◌ get_pull_request_from_github check_pull_request_for_changes
tick_pull s gh_pull = do
  r ← get_pull_request_from_github s gh_pull ""
  elim r [ err e ↦ cron_error "tick" | ok pr ↦ check_pull_request_for_changes s pr >>= λ _. done ]

-- One issue of a page; a pull request was looked at before.
unfoldable pub tick_issue : Server → GhIssue → M (Unit {0})
unfolding ◌>>=◌ get_issue_from_github check_issue_for_changes
tick_issue s gh_issue = do
  let check = do
    r ← get_issue_from_github s gh_issue
    elim r as (λ r. M (Unit {0})) [
      | err e ↦ cron_error "tick"
      | ok issue ↦ check_issue_for_changes s issue >>= λ _. done
    ]
  if gh_issue.is_pull_request then done else check

-- The loop over the pages, as it is written for pull requests and for issues: after an error the same
-- page is asked for again, and the page after which there is no other ends the loop at once.
unfoldable pub tick_pages :
    {A : Type 0} → ℕ → (ℕ → M (Result (Page A))) → (A → M (Unit {0})) → ℕ → M (Unit {0})
unfolding ◌>>=◌ for_each
tick_pages zero fetch each page = out_of_fuel
tick_pages (suc f) fetch each page = do
  r ← fetch page
  let again = cron_error "tick" >> tick_pages f fetch each page
  elim r [
    | err e ↦ again
    | ok p ↦
        let go_on = for_each p.items each >> tick_pages f fetch each p.next_page in
        if nat_eq p.next_page 0 then done else go_on
  ]

-- PullRequests.List and Issues.ListByRepo
unfoldable pub list_pulls : Server → Repository → ℕ → M (Result (Page GhPull))
unfolding ◌>>=◌
list_pulls s r page =
    ask (λ t. s.outside.pulls t r.owner r.name page) (listed_pulls r.owner r.name page)

unfoldable pub list_issues : Server → Repository → ℕ → M (Result (Page GhIssue))
unfolding ◌>>=◌
list_issues s r page =
    ask (λ t. s.outside.issues t r.owner r.name page) (listed_issues r.owner r.name page)

-- One repository.
unfoldable pub tick_repository : Server → Repository → M (Unit {0})
unfolding ◌>>=◌ tick_pages list_pulls list_issues tick_pull tick_issue
tick_repository s r =
    tick_pages s.fuel (list_pulls s r) (tick_pull s) 0
    >> tick_pages s.fuel (list_issues s r) (tick_issue s) 0

-- Tick
unfoldable pub tick : Server → M (Unit {0})
unfolding ◌>>=◌ timed for_each tick_repository
tick s = timed "tick" (for_each s.config.repositories (tick_repository s))
