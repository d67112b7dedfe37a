-- ===== src/Server/CherryPick/Job/Sound.antt =====
-- server/cherry_pick.go: the work on the queue keeps the program sound.
use mattermost_mattermod.Base.{
  ◌≡◌, refl, ℕ, zero, suc, String, Bool, List, [], ◌∷◌, arith, inl, inr, ap, true, List-cases,
  length,
}
use mattermost_mattermod.World.{World, CherryPickRequest}
use mattermost_mattermod.World.Monad.{Server, ◌>>◌, modify}
use mattermost_mattermod.World.Monad.Keeps.{
  Keeps, Keeps-bind, Keeps-pure, Keeps-if, Keeps-gets, Keeps-modify, Keeps-for_each,
}
use mattermost_mattermod.Server.Frame.{comment_on-Same}
use mattermost_mattermod.Server.Github.{comment_on}
use mattermost_mattermod.Server.Soundness.{Sound, Keeps-Same, Same-Sound}
use mattermost_mattermod.Server.CherryPick.Job.{
  work_off, listen_cherry_pick_requests, finish_cherry_pick_requests,
}
use mattermost_mattermod.Server.CherryPick.Job.Closed.{work_off-Closed}

module _ (s : Server) where
  take_job-Sound :
      (job : CherryPickRequest) (rest : List CherryPickRequest) (w : World)
      → w.queue ≡ job ∷ rest
      → Sound s w
      → Sound s (record w { queue = rest })
  take_job-Sound job rest w e h = record {
    pull_requests = h.pull_requests;
    issues = h.issues;
    queue = omega (arith, h.queue, ap (λ q. length q) e);
    merges = h.merges;
  }

  no_job-Sound : (w : World) → Sound s w → Sound s (record w { queue = [] })
  no_job-Sound w h = record {
    pull_requests = h.pull_requests;
    issues = h.issues;
    queue = omega arith;
    merges = h.merges;
  }

  listen_job :
      (n : ℕ) (job : CherryPickRequest) (rest : List CherryPickRequest) (w : World)
      → w.queue ≡ job ∷ rest
      → listen_cherry_pick_requests s (suc n) w
        ≡ (work_off s job >> listen_cherry_pick_requests s n) (record w { queue = rest })
  unfolding listen_cherry_pick_requests
  listen_job n job rest w e = rw e refl

  listen_idle : (n : ℕ) (w : World) → w.queue ≡ [] → (listen_cherry_pick_requests s (suc n) w).1 ≡ w
  unfolding listen_cherry_pick_requests
  listen_idle n w e = rw e refl

  listen_none : Keeps (Sound s) (listen_cherry_pick_requests s zero)
  unfolding listen_cherry_pick_requests
  listen_none = Keeps-pure tt

  listen_suc :
      (n : ℕ)
      → Keeps (Sound s) (listen_cherry_pick_requests s n)
      → (w : World) → Sound s w
      → Sound s (listen_cherry_pick_requests s (suc n) w).1
  listen_suc n more w h = elim (List-cases w.queue) [
    | inl e ↦ rw (listen_idle n w e) h
    | inr (job, rest, e) ↦ rw (listen_job n job rest w e) (
        (Keeps-bind _ _ (work_off-Closed (Sound s) (Same-Sound s) s job) (λ _. more)).at
          (record w { queue = rest }) (take_job-Sound job rest w e h))
  ]

  pub listen_cherry_pick_requests-Sound :
      (n : ℕ) → Keeps (Sound s) (listen_cherry_pick_requests s n)
  listen_cherry_pick_requests-Sound zero = listen_none
  listen_cherry_pick_requests-Sound (suc n) = record {
    at = listen_suc n (listen_cherry_pick_requests-Sound n);
  }

  pub finish_cherry_pick_requests-Sound :
      (idle : Bool) → Keeps (Sound s) (finish_cherry_pick_requests s idle)
  unfolding finish_cherry_pick_requests
  finish_cherry_pick_requests-Sound idle =
      Keeps-bind _ _
        (Keeps-Same s (modify (λ w. record w { stopped = true })) (λ w. (refl, refl, refl, refl)))
        (λ _. Keeps-bind _ _ (Keeps-gets (λ w. w.queue)) (λ queue.
          Keeps-if idle _ _ (Keeps-pure tt) (
            Keeps-bind _ _ (Keeps-modify (λ w. record w { queue = [] }) (λ w h. no_job-Sound w h))
              (λ _. Keeps-for_each {A = CherryPickRequest} queue _ (λ job.
                let msg : String = "Cherry picking is canceled due to server shutdown." in
                Keeps-Same s (comment_on s job.pr msg) (comment_on-Same s job.pr msg))))))
