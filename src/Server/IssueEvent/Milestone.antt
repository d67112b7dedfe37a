-- ===== src/Server/IssueEvent/Milestone.antt =====
-- server/pr_from_issue_handler.go: what becomes of the milestone.
use mattermost_mattermod.Base.{
  ◌≡◌, true, Option, none, some, List, String, ℕ, arith, Option-cases, inl, inr, [], ◌∷◌,
}
use mattermost_mattermod.Model.{PullRequest, Key, key_eq, pr_key}
use mattermost_mattermod.Model.Keys.{key_eq→eq, key_eq_refl}
use mattermost_mattermod.World.{World, ran, select_pr}
use mattermost_mattermod.World.Monad.{Server, log}
use mattermost_mattermod.Store.PullRequests
use mattermost_mattermod.Store.PullRequests.RoundTrip.{find-update_where}
use mattermost_mattermod.Server.IssueEvent.{
  IssueEvent, pr_from_issue_handler, update_milestone, with_milestone,
}

-- The milestone columns of a row that may be there.
abbrev pub milestone_of : Option PullRequest → Option ℕ × Option String
milestone_of none = (none, none)
milestone_of (some row) = (row.milestone_number, row.milestone_title)

find_key :
    (k : Key) (rows : List PullRequest) (row : PullRequest)
    → PullRequests.find k rows ≡ some row
    → key_eq (pr_key row) k ≡ true
unfolding PullRequests.find
find_key k [] row h = cc
find_key k (r ∷ rows) row h = ground (arith, find_key k rows row)

save-milestone :
    (s : Server) (pr row : PullRequest) (w : World)
    → PullRequests.find (pr_key pr) w.pull_requests ≡ some row
    → milestone_of (PullRequests.find (pr_key pr) (PullRequests.save s pr w).1.pull_requests)
      ≡ milestone_of (some row)
unfolding PullRequests.save
save-milestone s pr row w found =
    ground (arith, find-update_where pr (pr_key pr) w.pull_requests, key_eq_refl (pr_key pr))

-- An issue event for a pull request, with a milestone or without, leaves the milestone columns of the
-- pull request's row as they were: the statements of Save do not name them.
pub pr_from_issue_handler-milestone :
    (s : Server) (event : IssueEvent) (w : World)
    → let k : Key = record {
      owner = event.repo_owner;
      name = event.repo_name;
      number = event.issue.number;
    } in
      milestone_of (PullRequests.find k (pr_from_issue_handler s event w).1.pull_requests)
      ≡ milestone_of (PullRequests.find k w.pull_requests)
unfolding pr_from_issue_handler update_milestone PullRequests.get
pr_from_issue_handler-milestone s event w =
    let k : Key = record {
      owner = event.repo_owner;
      name = event.repo_name;
      number = event.issue.number;
    } in
    let w₁ = log (ran (select_pr k) (s.outside.statement w.trace (select_pr k))) w in
    elim (Option-cases event.issue.milestone) [
      | inl e ↦ ground arith
      | inr (m, e) ↦ elim (Option-cases (PullRequests.find k w.pull_requests)) [
        | inl q ↦ ground arith
        | inr (old, q) ↦ ground (
          arith,
          key_eq→eq (pr_key old) k (find_key k w.pull_requests old q),
          save-milestone s (with_milestone old m) old w₁,
        )
      ]
    ]
