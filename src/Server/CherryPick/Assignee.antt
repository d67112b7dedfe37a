-- ===== src/Server/CherryPick/Assignee.antt =====
-- server/cherry_pick.go: who is to review a cherry pick.
use mattermost_mattermod.Base.{
  ℕ, suc, ◌-◌, ◌≤◌, String, false, ◌≡◌, List, arith, mem, length, get_elem?, value_or,
}
use mattermost_mattermod.Model.{PullRequest}
use mattermost_mattermod.World.{World, got_reviews}
use mattermost_mattermod.World.Github.{ok}
use mattermost_mattermod.World.Monad.{Server, returned, panicked, log}
use mattermost_mattermod.Server.CherryPick.Job.{get_assignee, rand_intn}

-- For an author from outside whose pull request has at most one review, getAssignee panics.
pub get_assignee_panics :
    (s : Server) (pr : PullRequest) (reviewers : List String) (w : World)
    → mem pr.username w.org_members ≡ false
    → s.outside.reviews w.trace pr.repo_owner pr.repo_name pr.number ≡ ok reviewers
    → length reviewers ≤ 1
    → (get_assignee s pr w).0 ≡ panicked
unfolding get_assignee rand_intn
get_assignee_panics s pr reviewers w outsider answer few =
    let z : length reviewers - 1 ≡ 0 = omega (arith, few) in ground (arith, z)

-- For an author from outside whose pull request has two reviews or more, getAssignee returns the
-- reviewer at the index that rand.Intn gives for the number of reviews less one.
get_assignee_lem :
    (s : Server) (pr : PullRequest) (reviewers : List String) (n : ℕ) (w : World)
    → mem pr.username w.org_members ≡ false
    → s.outside.reviews w.trace pr.repo_owner pr.repo_name pr.number ≡ ok reviewers
    → length reviewers ≡ suc (suc n)
    → let w₁ = log (got_reviews pr.repo_owner pr.repo_name pr.number (ok reviewers)) w in
      (get_assignee s pr w).0
      ≡ returned (value_or "" (get_elem? reviewers (s.outside.random w₁.trace (suc n))))
unfolding get_assignee rand_intn
get_assignee_lem s pr reviewers n w outsider answer enough =
    let z : length reviewers - 1 ≡ suc n = omega (arith, enough) in ground (arith, z)
