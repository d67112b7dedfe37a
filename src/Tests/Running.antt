-- ===== src/Tests/Running.antt =====
-- cmd/: runs of both processes.
use mattermost_mattermod.Base.{◌≡◌, refl, true, false, String, none, some, List, [], ◌∷◌, arith}
use mattermost_mattermod.World.Github.{ok, err}
use mattermost_mattermod.World.Monad.{error}
use mattermost_mattermod.Store.PullRequests.{find}
use mattermost_mattermod.Server.Http.{Request, Decoded}
use mattermost_mattermod.Program.{
  System, Memory, step, new, Action, mattermod_starts, request_comes, goroutine_runs, listener_runs,
  mattermod_stops, jobserver_starts, jobserver_job, run,
}
use mattermost_mattermod.Program.Invariant.{Consistent, run-Consistent}
use mattermost_mattermod.Program.Crash.{step-listener_runs_crash}
use mattermost_mattermod.World.{CherryPickRequest}
use mattermost_mattermod.World.Monad.{Server}
use mattermost_mattermod.Tests.{server, pr, pull, config, outside}

-- The pull request of the other runs is in the database, and both processes are new.
abbrev system : System
system = record {
  trace = [];
  pull_requests = pr ∷ [];
  issues = [];
  mattermod = new;
  jobserver = new;
}

abbrev keyed : String → String → String
keyed secret body = secret

abbrev closed : Decoded
closed = record {
  ping_event = false;
  issues = err (error "EOF");
  issue_comment = err (error "EOF");
  pull_request = ok (record {
    action = "closed";
    pull_request = pull;
    label = none;
    repo_name = some "mattermod";
  });
}

abbrev genuine : Request
genuine = record {
  method = "POST";
  uri = "/pr_event";
  path = "/pr_event";
  event = "pull_request";
  signature = "sha1=secret";
  body = ok "{}";
}

-- The pull request is closed, its cherry pick is scheduled and done; the job server merges and ticks.
abbrev actions : List Action
actions =
    mattermod_starts
    ∷ jobserver_starts
    ∷ request_comes genuine
    ∷ goroutine_runs 1
    ∷ jobserver_job 3
    ∷ listener_runs 1
    ∷ jobserver_job 4
    ∷ mattermod_stops true
    ∷ []

run-Consistent_example : Consistent server (run server keyed (λ body. closed) system actions)
unfolding find
run-Consistent_example =
    run-Consistent server keyed (λ body. closed) system actions
      (record {
        pull_requests = (refl, tt);
        issues = tt;
        mattermod = omega arith;
        jobserver = omega arith;
        merges = tt;
      })

-- Two requests wait, and the first is for a pull request of carol, who is no member, with one review.
abbrev request : CherryPickRequest
request = record { pr = pr; milestone = none; version = "release-6.0" }

abbrev waiting : Memory
waiting = record {
  org_members = "alice" ∷ [];
  queue = request ∷ request ∷ [];
  stopped = false;
  tasks = [];
}

abbrev busy : System
busy = record system { mattermod = waiting }

abbrev one_review : Server
one_review = record {
  config = config;
  outside = record outside { reviews = λ t owner name number. ok ("dave" ∷ []) };
  fuel = 2;
}

step-listener_runs_crash_example :
    (step one_review keyed (λ body. closed) busy (listener_runs 1)).mattermod ≡ new
step-listener_runs_crash_example =
    step-listener_runs_crash one_review keyed (λ body. closed) busy 0 request (request ∷ [])
      ("dave" ∷ []) (λ t dir args. "") refl refl (omega arith) (λ t. refl) refl refl refl
      (λ t path. refl) (λ t dir args. refl)
