-- ===== src/Program.antt =====
-- cmd/mattermost-mattermod/main.go and cmd/jobserver/main.go: the two processes of the program, and
-- Start and Stop of server/server.go. Both processes use one database and act on one GitHub, so the
-- tables and the history are common; what the `Server` struct keeps is each process's own.
pub mod Invariant
pub mod Crash
pub mod Startup
use mattermost_mattermod.Base.{
  ℕ, zero, suc, String, Bool, false, Option, none, some, List, [], ◌∷◌, get_elem?,
}
use mattermost_mattermod.Model.{PullRequest, Issue}
use mattermost_mattermod.World.{
  World, Event, CherryPickRequest, Task, check_cherry_pick, clean_up_labels,
}
use mattermost_mattermod.World.Github.{Result}
use mattermost_mattermod.World.Response.{new_wrapped_writer}
use mattermost_mattermod.World.Monad.{
  Server, Outcome, returned, panicked, unfinished, M, ◌>>=◌, ◌>>◌, done, gets, modify,
}
use mattermost_mattermod.Server.Tasks as Tasks
use mattermost_mattermod.Server.Tick.{tick}
use mattermost_mattermod.Server.AutoMerge.{auto_merge_pr}
use mattermost_mattermod.Server.CherryPick.{check_if_need_cherry_pick}
use mattermost_mattermod.Server.CherryPick.Job.{
  listen_cherry_pick_requests, finish_cherry_pick_requests,
}
use mattermost_mattermod.Server.Http.{Decoded, Request, get_ping, pr_event}

-- What a `Server` keeps for itself.
pub record Memory : Type 0 where
  pub org_members : List String
  pub queue : List CherryPickRequest
  pub stopped : Bool
  pub tasks : List Task

pub record System : Type 0 where
  pub trace : List Event
  pub pull_requests : List PullRequest
  pub issues : List Issue
  pub mattermod : Memory
  pub jobserver : Memory

-- The memory that New gives.
abbrev pub new : Memory
new = record { org_members = []; queue = []; stopped = false; tasks = [] }

-- The world as a process with the memory sees it.
abbrev pub view : System → Memory → World
view x m = record {
  trace = x.trace;
  pull_requests = x.pull_requests;
  issues = x.issues;
  org_members = m.org_members;
  queue = m.queue;
  stopped = m.stopped;
  tasks = m.tasks;
  writer = new_wrapped_writer;
}

-- The memory after an action: a panic that nobody recovers from ends the process, and it is started
-- anew.
abbrev pub memory : {A : Type 0} → Outcome A → World → Memory
memory panicked w = new
memory (returned a) w = record {
  org_members = w.org_members;
  queue = w.queue;
  stopped = w.stopped;
  tasks = w.tasks;
}
memory unfinished w = record {
  org_members = w.org_members;
  queue = w.queue;
  stopped = w.stopped;
  tasks = w.tasks;
}

-- An action of the one process or of the other.
unfoldable pub in_mattermod : {A : Type 0} → M A → System → System
in_mattermod m x =
    let r = m (view x x.mattermod) in
    record x {
      trace = r.1.trace;
      pull_requests = r.1.pull_requests;
      issues = r.1.issues;
      mattermod = memory r.0 r.1;
    }

unfoldable pub in_jobserver : {A : Type 0} → M A → System → System
in_jobserver m x =
    let r = m (view x x.jobserver) in
    record x {
      trace = r.1.trace;
      pull_requests = r.1.pull_requests;
      issues = r.1.issues;
      jobserver = memory r.0 r.1;
    }

remove_at : {A : Type 0} → ℕ → List A → List A
remove_at i [] = []
remove_at zero (x ∷ xs) = xs
remove_at (suc i) (x ∷ xs) = x ∷ remove_at i xs

-- A goroutine that pullRequestEventHandler has started for a closed pull request.
unfoldable pub run_task : Server → Task → M (Unit {0})
run_task s (check_cherry_pick pr) = check_if_need_cherry_pick s pr
run_task s (clean_up_labels pr) = Tasks.clean_up_labels s pr

-- The goroutine `i` of those that wait for their turn, in whatever order they get it.
unfoldable pub run_goroutine : Server → ℕ → M (Unit {0})
unfolding ◌>>=◌ run_task remove_at
run_goroutine s i = do
  task ← gets (λ w. get_elem? w.tasks i)
  elim task [
    | none ↦ done
    | some task ↦ modify (λ w. record w { tasks = remove_at i w.tasks }) >> run_task s task
  ]

-- The job `i` of a list of them.
unfoldable pub run_job : List (M (Unit {0})) → ℕ → M (Unit {0})
run_job [] i = done
run_job (job ∷ jobs) zero = job
run_job (job ∷ jobs) (suc i) = run_job jobs i

module _ (s : Server) where
  -- The jobs that main of the server gives to cron, and that of the job server, in their order.
  abbrev pub mattermod_jobs : List (M (Unit {0}))
  mattermod_jobs = Tasks.refresh_members s ∷ []

  unfoldable pub jobserver_jobs : List (M (Unit {0}))
  unfolding ◌>>=◌
  jobserver_jobs =
      Tasks.check_pr_activity s
      ∷ Tasks.refresh_members s
      ∷ Tasks.clean_outdated_prs s
      ∷ (auto_merge_pr s >>= λ _. done)
      ∷ tick s
      ∷ []

  -- Start, before its goroutines, and Stop, before the HTTP server shuts down.
  abbrev pub start : M (Unit {0})
  start = Tasks.refresh_members s

  abbrev pub stop : Bool → M (Unit {0})
  stop idle = finish_cherry_pick_requests s idle

-- What may happen next. The numbers say which goroutine, which job, and for how many requests the
-- listener runs; when cron starts a job, which request comes, and what the JSON
-- encoder gives for a ping is left open.
pub data Action : Type 0 where
  mattermod_starts : Action
  request_comes : Request → Action
  ping_comes : Request → Result String → Action
  goroutine_runs : ℕ → Action
  listener_runs : ℕ → Action
  mattermod_job : ℕ → Action
  mattermod_stops : Bool → Action
  mattermod_restarts : Action
  jobserver_starts : Action
  jobserver_job : ℕ → Action
  jobserver_restarts : Action

-- `hmac` and `decode` are those of the HTTP entry.
module _ (s : Server) (hmac : String → String → String) (decode : String → Decoded) where
  unfoldable pub step : System → Action → System
  unfolding in_mattermod in_jobserver
  step x mattermod_starts = in_mattermod (start s) x
  step x (request_comes r) = in_mattermod (pr_event s hmac decode r) x
  step x (ping_comes r info) = in_mattermod (get_ping s hmac info r) x
  step x (goroutine_runs i) = in_mattermod (run_goroutine s i) x
  step x (listener_runs n) = in_mattermod (listen_cherry_pick_requests s n) x
  step x (mattermod_job i) = in_mattermod (run_job (mattermod_jobs s) i) x
  step x (mattermod_stops idle) = in_mattermod (stop s idle) x
  step x mattermod_restarts = record x { mattermod = new }
  step x jobserver_starts = in_jobserver (Tasks.refresh_members s) x
  step x (jobserver_job i) = in_jobserver (run_job (jobserver_jobs s) i) x
  step x jobserver_restarts = record x { jobserver = new }

  unfoldable pub run : System → List Action → System
  unfolding step
  run x [] = x
  run x (a ∷ actions) = run (step x a) actions
