-- ===== src/Server/Soundness.antt =====
-- The invariant of the whole program.
use mattermost_mattermod.Base.{◌≤◌, refl, true, ℕ, String, length, arith}
use mattermost_mattermod.Model.{PullRequest, Issue}
use mattermost_mattermod.World.{World, locked}
use mattermost_mattermod.World.Monad.{Server, M, ◌>>=◌, log, with_comment_lock, timed, http_error}
use mattermost_mattermod.World.Monad.Keeps.{Keeps}
use mattermost_mattermod.World.Frame.{Same}
use mattermost_mattermod.Store.PullRequests
use mattermost_mattermod.Store.Issues
use mattermost_mattermod.Store.PullRequests.RoundTrip as PullRequestTable
use mattermost_mattermod.Store.Issues.RoundTrip as IssueTable
use mattermost_mattermod.Server.CherryPick.{queue_capacity}
use mattermost_mattermod.Server.AutoMerge.Readiness.{Justified}

-- The primary keys of both tables hold, the queue is not longer than its channel, and whatever has been
-- merged was said to be ready before.
pub record Sound (s : Server) (w : World) : Type 0 where
  pub pull_requests : PullRequestTable.Distinct w.pull_requests
  pub issues : IssueTable.Distinct w.issues
  pub queue : length w.queue ≤ queue_capacity
  pub merges : Justified s (λ t. true) (λ owner name number. true) w.trace

module _ (s : Server) where
  pub Same-Sound : (w v : World) → Same w v → Sound s w → Sound s v
  Same-Sound w v same h = record {
    pull_requests = rw same.0 h.pull_requests;
    issues = rw same.1 h.issues;
    queue = rw same.2 h.queue;
    merges = rw same.3 h.merges;
  }

  pub Keeps-Same : {A : Type 0} (m : M A) → ((w : World) → Same w (m w).1) → Keeps (Sound s) m
  Keeps-Same m same = record { at = λ w h. Same-Sound w (m w).1 (same w) h }

  pub save-Sound : (pr : PullRequest) → Keeps (Sound s) (PullRequests.save s pr)
  unfolding PullRequests.save
  save-Sound pr = record {
    at = λ w h. record {
      pull_requests = PullRequestTable.save-Distinct s pr w h.pull_requests;
      issues = ground (arith, h.issues);
      queue = ground (arith, h.queue);
      merges = ground (arith, h.merges);
    };
  }

  pub save_issue-Sound : (issue : Issue) → Keeps (Sound s) (Issues.save s issue)
  unfolding Issues.save
  save_issue-Sound issue = record {
    at = λ w h. record {
      pull_requests = ground (arith, h.pull_requests);
      issues = IssueTable.save-Distinct s issue w h.issues;
      queue = ground (arith, h.queue);
      merges = ground (arith, h.merges);
    };
  }

  pub lock-Sound :
      {A : Type 0} (m : M A) → Keeps (Sound s) m → Keeps (Sound s) (with_comment_lock m)
  unfolding with_comment_lock
  lock-Sound m k = record { at = go }
    where
      go : (w : World) → Sound s w → Sound s (with_comment_lock m w).1
      go w h =
          let v = k.at (log locked w) (record {
            pull_requests = h.pull_requests;
            issues = h.issues;
            queue = h.queue;
            merges = h.merges;
          }) in
          record {
            pull_requests = v.pull_requests;
            issues = v.issues;
            queue = v.queue;
            merges = v.merges;
          }

  pub timed-Sound :
      {A : Type 0} (name : String) (m : M A) → Keeps (Sound s) m → Keeps (Sound s) (timed name m)
  unfolding timed
  timed-Sound name m k = record { at = go }
    where
      go : (w : World) → Sound s w → Sound s (timed name m w).1
      go w h =
          let v = k.at w h in
          record {
            pull_requests = v.pull_requests;
            issues = v.issues;
            queue = v.queue;
            merges = v.merges;
          }

  pub http_error-Sound : (msg : String) (code : ℕ) → Keeps (Sound s) (http_error msg code)
  unfolding ◌>>=◌
  http_error-Sound msg code = Keeps-Same (http_error msg code) (λ w. (refl, refl, refl, refl))
