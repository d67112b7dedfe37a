-- ===== src/Program/Invariant.antt =====
-- cmd/: the program stays sound, whatever happens in which order.
use mattermost_mattermod.Base.{
  refl, ◌≤◌, ℕ, zero, suc, String, true, List, [], ◌∷◌, All, arith, length, get_elem?,
}
use mattermost_mattermod.World.{World, Task, check_cherry_pick, clean_up_labels}
use mattermost_mattermod.World.Monad.{Server, Outcome, returned, panicked, unfinished, M, modify}
use mattermost_mattermod.World.Monad.Keeps.{Keeps, Keeps-bind, Keeps-pure, Keeps-gets, Keeps-Option}
use mattermost_mattermod.Store.PullRequests.RoundTrip as PullRequestTable
use mattermost_mattermod.Store.Issues.RoundTrip as IssueTable
use mattermost_mattermod.Server.CherryPick.{queue_capacity}
use mattermost_mattermod.Server.CherryPick.Sound.{check_if_need_cherry_pick-Sound}
use mattermost_mattermod.Server.CherryPick.Job.Sound.{
  listen_cherry_pick_requests-Sound, finish_cherry_pick_requests-Sound,
}
use mattermost_mattermod.Server.AutoMerge.Readiness.{Justified}
use mattermost_mattermod.Server.AutoMerge.Sound.{auto_merge_pr-Sound}
use mattermost_mattermod.Server.Tasks.Sound.{
  check_pr_activity-Sound, clean_outdated_prs-Sound, clean_up_labels-Sound, refresh_members-Sound,
}
use mattermost_mattermod.Server.Tick.Sound.{tick-Sound}
use mattermost_mattermod.Server.Http.Sound.{get_ping-Sound, pr_event-Sound}
use mattermost_mattermod.Server.Http.{Decoded}
use mattermost_mattermod.Server.Soundness.{Sound, Keeps-Same}
use mattermost_mattermod.Program.{
  System, memory, view, in_mattermod, in_jobserver, remove_at, run_task, run_goroutine, run_job,
  mattermod_jobs, jobserver_jobs, Action, mattermod_starts, request_comes, ping_comes,
  goroutine_runs, listener_runs, mattermod_job, mattermod_stops, mattermod_restarts,
  jobserver_starts, jobserver_job, jobserver_restarts, step, run,
}

-- The primary keys of both tables hold, neither process has more requests on its queue than its channel
-- takes, and every merge of the history was said to be ready before.
pub record Consistent (s : Server) (x : System) : Type 0 where
  pub pull_requests : PullRequestTable.Distinct x.pull_requests
  pub issues : IssueTable.Distinct x.issues
  pub mattermod : length x.mattermod.queue ≤ queue_capacity
  pub jobserver : length x.jobserver.queue ≤ queue_capacity
  pub merges : Justified s (λ t. true) (λ owner name number. true) x.trace

memory-queue :
    {A : Type 0} (o : Outcome A) (w : World)
    → length w.queue ≤ queue_capacity
    → length (memory o w).queue ≤ queue_capacity
memory-queue (returned a) w h = h
memory-queue panicked w h = omega arith
memory-queue unfinished w h = h

module _ (s : Server) where
  mattermod-Consistent :
      {A : Type 0} (m : M A) (x : System)
      → Keeps (Sound s) m
      → Consistent s x
      → Consistent s (in_mattermod m x)
  unfolding in_mattermod
  mattermod-Consistent m x k h =
      let v = k.at (view x x.mattermod) (record {
        pull_requests = h.pull_requests;
        issues = h.issues;
        queue = h.mattermod;
        merges = h.merges;
      }) in
      record {
        pull_requests = v.pull_requests;
        issues = v.issues;
        mattermod = memory-queue (m (view x x.mattermod)).0 _ v.queue;
        jobserver = h.jobserver;
        merges = v.merges;
      }

  jobserver-Consistent :
      {A : Type 0} (m : M A) (x : System)
      → Keeps (Sound s) m
      → Consistent s x
      → Consistent s (in_jobserver m x)
  unfolding in_jobserver
  jobserver-Consistent m x k h =
      let v = k.at (view x x.jobserver) (record {
        pull_requests = h.pull_requests;
        issues = h.issues;
        queue = h.jobserver;
        merges = h.merges;
      }) in
      record {
        pull_requests = v.pull_requests;
        issues = v.issues;
        mattermod = h.mattermod;
        jobserver = memory-queue (m (view x x.jobserver)).0 _ v.queue;
        merges = v.merges;
      }

  run_task-Sound : (task : Task) → Keeps (Sound s) (run_task s task)
  unfolding run_task
  run_task-Sound (check_cherry_pick pr) = check_if_need_cherry_pick-Sound s pr
  run_task-Sound (clean_up_labels pr) = clean_up_labels-Sound s pr

  run_goroutine-Sound : (i : ℕ) → Keeps (Sound s) (run_goroutine s i)
  unfolding run_goroutine
  run_goroutine-Sound i = Keeps-bind _ _ (Keeps-gets (λ w. get_elem? w.tasks i)) (λ task.
      Keeps-Option task _ _ (Keeps-pure tt) (λ task.
        Keeps-bind _ _
          (Keeps-Same s (modify (λ w. record w { tasks = remove_at i w.tasks }))
            (λ w. (refl, refl, refl, refl)))
          (λ _. run_task-Sound task)))

  run_job-Sound :
      (jobs : List (M (Unit {0}))) (i : ℕ)
      → All (Keeps (Sound s)) jobs
      → Keeps (Sound s) (run_job jobs i)
  unfolding run_job
  run_job-Sound [] i k = Keeps-pure tt
  run_job-Sound (job ∷ jobs) zero k = k.0
  run_job-Sound (job ∷ jobs) (suc i) k = run_job-Sound jobs i k.1

  jobserver_jobs-Sound : All (Keeps (Sound s)) (jobserver_jobs s)
  unfolding jobserver_jobs
  jobserver_jobs-Sound = (
    check_pr_activity-Sound s,
    (
      refresh_members-Sound s,
      (
        clean_outdated_prs-Sound s,
        (Keeps-bind _ _ (auto_merge_pr-Sound s) (λ _. Keeps-pure tt), (tick-Sound s, tt)),
      ),
    ),
  )

  module _ (hmac : String → String → String) (decode : String → Decoded) where
    step-Consistent :
        (x : System) (a : Action) → Consistent s x → Consistent s (step s hmac decode x a)
    unfolding step
    step-Consistent x mattermod_starts h = mattermod-Consistent _ x (refresh_members-Sound s) h
    step-Consistent x (request_comes r) h =
        mattermod-Consistent _ x (pr_event-Sound s hmac decode r) h
    step-Consistent x (ping_comes r info) h =
        mattermod-Consistent _ x (get_ping-Sound s hmac info r) h
    step-Consistent x (goroutine_runs i) h = mattermod-Consistent _ x (run_goroutine-Sound i) h
    step-Consistent x (listener_runs n) h =
        mattermod-Consistent _ x (listen_cherry_pick_requests-Sound s n) h
    step-Consistent x (mattermod_job i) h =
        mattermod-Consistent _ x (run_job-Sound (mattermod_jobs s) i (refresh_members-Sound s, tt))
          h
    step-Consistent x (mattermod_stops idle) h =
        mattermod-Consistent _ x (finish_cherry_pick_requests-Sound s idle) h
    step-Consistent x mattermod_restarts h = record {
      pull_requests = h.pull_requests;
      issues = h.issues;
      mattermod = omega arith;
      jobserver = h.jobserver;
      merges = h.merges;
    }
    step-Consistent x jobserver_starts h = jobserver-Consistent _ x (refresh_members-Sound s) h
    step-Consistent x (jobserver_job i) h =
        jobserver-Consistent _ x (run_job-Sound (jobserver_jobs s) i jobserver_jobs-Sound) h
    step-Consistent x jobserver_restarts h = record {
      pull_requests = h.pull_requests;
      issues = h.issues;
      mattermod = h.mattermod;
      jobserver = omega arith;
      merges = h.merges;
    }

    -- Whatever requests, goroutines, periodic jobs, shutdowns and restarts follow each other in the two
    -- processes, and whatever GitHub, the database driver and the webhooks answer: if the program was
    -- consistent, it stays so. No two rows of a table have the same key, no queue of cherry picks is
    -- longer than 20, and every merge in the history is a squash merge at a commit of which GitHub had
    -- said before that it is the head of the open pull request and clean to merge, that its combined
    -- status is a success, and that no review of the pull request is outstanding.
    pub run-Consistent :
        (x : System) (actions : List Action)
        → Consistent s x
        → Consistent s (run s hmac decode x actions)
    unfolding run
    run-Consistent x [] h = h
    run-Consistent x (a ∷ actions) h =
        run-Consistent (step s hmac decode x a) actions (step-Consistent x a h)
