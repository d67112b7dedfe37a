-- ===== src/Server/CherryPick/Job/Crash.antt =====
-- server/cherry_pick.go: what a panic of getAssignee does to the work on the queue.
use mattermost_mattermod.Base.{
  ◌≡◌, ◌≤◌, ℕ, suc, String, true, false, ◌==◌, Option, List, [], ◌∷◌, arith, mem, length,
}
use mattermost_mattermod.Base.Text.{◌+++◌, trim_space, itoa}
use mattermost_mattermod.Model.{PullRequest}
use mattermost_mattermod.World.{World, Event, CherryPickRequest, executed}
use mattermost_mattermod.World.Github.{ok}
use mattermost_mattermod.World.Monad.{Server, panicked, log}
use mattermost_mattermod.Server.CherryPick.Assignee.{get_assignee_panics}
use mattermost_mattermod.Server.CherryPick.Job.{
  get_assignee, finish_cherry_pick, run_cherry_pick, checkout, do_cherry_pick, work_off,
  listen_cherry_pick_requests, new_pr_number_of,
}

finish_cherry_pick_panics :
    (s : Server) (n : ℕ) (milestone : Option ℕ) (pr : PullRequest) (w : World)
    → (get_assignee s pr w).0 ≡ panicked
    → (finish_cherry_pick s n milestone pr w).0 ≡ panicked
unfolding finish_cherry_pick
finish_cherry_pick_panics s n milestone pr w h = ground (arith, h)

-- The cherry pick of a pull request of someone from outside with at most one review, on a server that is
-- set up for it, on which the commands that it runs succeed.
pub record Doomed (s : Server) (members : List String) (pr : PullRequest) : Type 0 where
  pub outsider : mem pr.username members ≡ false
  pub reviewers : List String
  pub few : length reviewers ≤ 1
  pub reviews :
      (t : List Event) → s.outside.reviews t pr.repo_owner pr.repo_name pr.number ≡ ok reviewers
  pub merged : (pr.merge_commit_sha == "") ≡ false
  pub folder : (s.config.repo_folder == "") ≡ false
  pub scripts : (s.config.scripts_folder == "") ≡ false
  pub there : (t : List Event) (path : String) → s.outside.stat t path ≡ true
  pub output : List Event → String → List String → String
  pub runs :
      (t : List Event) (dir : String) (args : List String)
      → s.outside.execute t dir args ≡ ok (output t dir args)

module _ (s : Server) (pr : PullRequest) (w : World) (d : Doomed s w.org_members pr) where
  run_cherry_pick_panics :
      (dir version : String) (milestone : Option ℕ)
      → (run_cherry_pick s dir version milestone pr w).0 ≡ panicked
  unfolding run_cherry_pick
  run_cherry_pick_panics dir version milestone =
      let args =
        (s.config.scripts_folder +++ "/cherry-pick.sh")
        ∷ ("upstream/" +++ version)
        ∷ itoa pr.number
        ∷ pr.merge_commit_sha
        ∷ pr.ref
        ∷ [] in
      let out = d.output w.trace dir args in
      let v = log (executed dir args (ok out)) w in
      let fails = get_assignee_panics s pr d.reviewers v d.outsider (d.reviews v.trace) d.few in
      ground (
        arith,
        d.runs w.trace dir args,
        finish_cherry_pick_panics s (new_pr_number_of s out) milestone pr v fails,
      )

  do_cherry_pick_panics :
      (version : String) (milestone : Option ℕ)
      → (do_cherry_pick s version milestone pr w).0 ≡ panicked
  unfolding do_cherry_pick checkout
  do_cherry_pick_panics version milestone =
      let dir = s.config.repo_folder +++ "/" +++ pr.repo_name in
      ground (
        arith,
        d.merged,
        d.folder,
        d.scripts,
        d.there w.trace dir,
        run_cherry_pick_panics dir version milestone,
      )

work_off_panics :
    (s : Server) (job : CherryPickRequest) (w : World)
    → Doomed s w.org_members job.pr
    → (work_off s job w).0 ≡ panicked
unfolding work_off
work_off_panics s job w d =
    ground (arith, do_cherry_pick_panics s job.pr w d (trim_space job.version) job.milestone)

pub listen_cherry_pick_requests_panics :
    (s : Server) (n : ℕ) (job : CherryPickRequest) (rest : List CherryPickRequest) (w : World)
    → w.queue ≡ job ∷ rest
    → Doomed s w.org_members job.pr
    → (listen_cherry_pick_requests s (suc n) w).0 ≡ panicked
unfolding listen_cherry_pick_requests
listen_cherry_pick_requests_panics s n job rest w e d =
    rw e (ground (arith, work_off_panics s job (record w { queue = rest }) d))
