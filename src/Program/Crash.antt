-- ===== src/Program/Crash.antt =====
-- cmd/mattermost-mattermod/main.go: what is lost when the listener panics.
use mattermost_mattermod.Base.{
  ◌≡◌, ◌≤◌, refl, ℕ, suc, String, true, false, ◌==◌, List, ◌∷◌, mem, length,
}
use mattermost_mattermod.World.{CherryPickRequest, Event}
use mattermost_mattermod.World.Github.{ok}
use mattermost_mattermod.World.Monad.{Server}
use mattermost_mattermod.Server.Http.{Decoded}
use mattermost_mattermod.Server.CherryPick.Job.Crash.{Doomed, listen_cherry_pick_requests_panics}
use mattermost_mattermod.Program.{System, new, view, in_mattermod, listener_runs, step}

-- If the oldest request of a cherry pick is for a pull request that someone from outside wrote and that
-- has at most one review, then working it off, on a server that is set up for it and where the commands
-- that are run succeed, ends the process of the server, and the requests behind it are lost.
pub step-listener_runs_crash :
    (s : Server) (hmac : String → String → String) (decode : String → Decoded) (x : System) (n : ℕ)
    (job : CherryPickRequest) (rest : List CherryPickRequest) (reviewers : List String)
    (output : List Event → String → List String → String)
    → x.mattermod.queue ≡ job ∷ rest
    → mem job.pr.username x.mattermod.org_members ≡ false
    → length reviewers ≤ 1
    → ((t : List Event)
        → s.outside.reviews t job.pr.repo_owner job.pr.repo_name job.pr.number ≡ ok reviewers)
    → (job.pr.merge_commit_sha == "") ≡ false
    → (s.config.repo_folder == "") ≡ false
    → (s.config.scripts_folder == "") ≡ false
    → ((t : List Event) (path : String) → s.outside.stat t path ≡ true)
    → ((t : List Event) (dir : String) (args : List String)
        → s.outside.execute t dir args ≡ ok (output t dir args))
    → (step s hmac decode x (listener_runs (suc n))).mattermod ≡ new
unfolding step in_mattermod
step-listener_runs_crash s hmac decode x n job rest reviewers output e outsider few reviews merged
      folder scripts there runs =
    let doomed : Doomed s x.mattermod.org_members job.pr = record {
      outsider = outsider;
      reviewers = reviewers;
      few = few;
      reviews = reviews;
      merged = merged;
      folder = folder;
      scripts = scripts;
      there = there;
      output = output;
      runs = runs;
    } in
    rw (listen_cherry_pick_requests_panics s n job rest (view x x.mattermod) e doomed) refl
