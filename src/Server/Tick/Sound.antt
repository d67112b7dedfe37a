-- ===== src/Server/Tick/Sound.antt =====
-- server/server.go: Tick keeps the program sound.
use mattermost_mattermod.Base.{refl, ℕ, zero, suc}
use mattermost_mattermod.World.Github.{Result, GhPull, GhIssue, Page}
use mattermost_mattermod.World.Config.{Repository}
use mattermost_mattermod.World.Monad.{Server, M}
use mattermost_mattermod.World.Monad.Keeps.{
  Keeps, Keeps-bind, Keeps-pure, Keeps-if, Keeps-out_of_fuel, Keeps-Result, Keeps-for_each,
}
use mattermost_mattermod.Server.Soundness.{Sound, Keeps-Same, timed-Sound}
use mattermost_mattermod.Server.Fetch.Sound.{
  get_pull_request_from_github-Sound, get_issue_from_github-Sound,
}
use mattermost_mattermod.Server.Changes.Sound.{check_pull_request_for_changes-Sound}
use mattermost_mattermod.Server.IssueEvent.Sound.{check_issue_for_changes-Sound}
use mattermost_mattermod.Server.Tasks.Sound.{cron_error-Sound}
use mattermost_mattermod.Server.Tick.{
  tick_pull, tick_issue, tick_pages, list_pulls, list_issues, tick_repository, tick,
}

module _ (s : Server) where
  tick_pull-Sound : (pull : GhPull) → Keeps (Sound s) (tick_pull s pull)
  unfolding tick_pull
  tick_pull-Sound pull = Keeps-bind _ _ (get_pull_request_from_github-Sound s pull "") (λ r.
      Keeps-Result r _ _ (λ e. cron_error-Sound s "tick")
        (λ pr. Keeps-bind _ _ (check_pull_request_for_changes-Sound s pr) (λ _. Keeps-pure tt)))

  tick_issue-Sound : (issue : GhIssue) → Keeps (Sound s) (tick_issue s issue)
  unfolding tick_issue
  tick_issue-Sound issue = Keeps-if _ _ _ (Keeps-pure tt) (
      Keeps-bind _ _ (get_issue_from_github-Sound s issue) (λ r.
        Keeps-Result r _ _ (λ e. cron_error-Sound s "tick")
          (λ issue. Keeps-bind _ _ (check_issue_for_changes-Sound s issue) (λ _. Keeps-pure tt))))

  tick_pages-Sound :
      {A : Type 0} (f : ℕ) (fetch : ℕ → M (Result (Page A))) (each : A → M (Unit {0})) (page : ℕ)
      → ((page : ℕ) → Keeps (Sound s) (fetch page))
      → ((a : A) → Keeps (Sound s) (each a))
      → Keeps (Sound s) (tick_pages f fetch each page)
  unfolding tick_pages
  tick_pages-Sound zero fetch each page kf ke = Keeps-out_of_fuel
  tick_pages-Sound (suc f) fetch each page kf ke = Keeps-bind _ _ (kf page) (λ r.
      Keeps-Result r _ _
        (λ e.
          Keeps-bind _ _ (cron_error-Sound s "tick")
            (λ _. tick_pages-Sound f fetch each page kf ke))
        (λ p. Keeps-if _ _ _ (Keeps-pure tt) (
          Keeps-bind _ _ (Keeps-for_each p.items each ke)
            (λ _. tick_pages-Sound f fetch each p.next_page kf ke))))

  tick_repository-Sound : (r : Repository) → Keeps (Sound s) (tick_repository s r)
  unfolding tick_repository
  tick_repository-Sound r =
      Keeps-bind _ _
        (tick_pages-Sound s.fuel (list_pulls s r) (tick_pull s) 0
          (λ page. Keeps-Same s (list_pulls s r page) (λ w. (refl, refl, refl, refl)))
          tick_pull-Sound)
        (λ _.
          tick_pages-Sound s.fuel (list_issues s r) (tick_issue s) 0
            (λ page. Keeps-Same s (list_issues s r page) (λ w. (refl, refl, refl, refl)))
            tick_issue-Sound)

  pub tick-Sound : Keeps (Sound s) (tick s)
  unfolding tick
  tick-Sound = timed-Sound s _ _ (Keeps-for_each s.config.repositories _ tick_repository-Sound)
