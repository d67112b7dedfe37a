-- ===== src/Server/CherryPick/Job/Order.antt =====
-- server/cherry_pick.go: the listener takes the requests in their order and finishes.
use mattermost_mattermod.Base.{◌≡◌, ◌∙◌, refl, ℕ, zero, suc, List, [], ◌∷◌, All, drop}
use mattermost_mattermod.World.{World, CherryPickRequest}
use mattermost_mattermod.World.Monad.{Server, returned}
use mattermost_mattermod.Server.CherryPick.Job.{work_off, listen_cherry_pick_requests}
use mattermost_mattermod.Server.CherryPick.Job.Closed.{work_off-Closed}

-- The work on a request leaves the queue alone.
work_off-queue :
    (s : Server) (job : CherryPickRequest) (w : World) → (work_off s job w).1.queue ≡ w.queue
work_off-queue s job w =
    (work_off-Closed (λ v. v.queue ≡ w.queue) (λ v u same h. same.2 ∙ h) s job).at w refl

-- The request is worked off without a panic, in whatever world.
abbrev pub Works : Server → CherryPickRequest → Type 0
Works s job = (w : World) → (work_off s job w).0 ≡ returned tt

-- If no request makes the work panic, then in as many rounds as it is given the listener takes that
-- many requests from the front of the queue, or all there are, and waits for more.
pub listen_cherry_pick_requests-drop :
    (s : Server) (n : ℕ) (queue : List CherryPickRequest) (w : World)
    → w.queue ≡ queue
    → All (Works s) queue
    → ((listen_cherry_pick_requests s n w).0 ≡ returned tt)
      × ((listen_cherry_pick_requests s n w).1.queue ≡ drop queue n)
unfolding listen_cherry_pick_requests
listen_cherry_pick_requests-drop s zero [] w e works = (refl, e)
listen_cherry_pick_requests-drop s zero (job ∷ queue) w e works = (refl, e)
listen_cherry_pick_requests-drop s (suc n) [] w e works = rw e (refl, refl)
listen_cherry_pick_requests-drop s (suc n) (job ∷ queue) w e works =
    let v = record w { queue = queue } in
    let rest =
      listen_cherry_pick_requests-drop s n queue (work_off s job v).1 (work_off-queue s job v)
        works.1 in
    rw (e, works.0 v) rest
