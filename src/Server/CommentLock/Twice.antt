-- ===== src/Server/CommentLock/Twice.antt =====
-- Two processes with a lock each: the web server, whose events go to checkIssueForChanges, and the
-- job server, whose Tick does.
use mattermost_mattermod.Base.{ℕ, zero, suc, String, none, [], ◌∷◌, ◌≡◌, refl, eq_iff}
use mattermost_mattermod.Server.CommentLock.{Phase, State, Step, Runs, said, times}

-- The first two goroutines are about to post the answer, if it is not there.
abbrev pub two_phases : String → ℕ → Phase
two_phases m zero = Phase.waiting (m ∷ [])
two_phases m (suc zero) = Phase.waiting (m ∷ [])
two_phases m (suc (suc i)) = Phase.returned

abbrev pub two_goroutines : String → State
two_goroutines m = record { holder = λ process. none; comments = []; phase = two_phases m }

-- Two goroutines in two processes that each are to post an answer once, on an issue without
-- comments, can both post it.
pub Runs-posts_twice :
    (bot m : String)
    → (t : State) × Runs bot m (λ i. i) (two_goroutines m) t × (times bot m t.comments ≡ 2)
unfolding times said
Runs-posts_twice bot m = (
  _,
  Runs.go_on (Step.lock 0 (m ∷ []) refl refl) (
      Runs.go_on (Step.lock 1 (m ∷ []) refl refl) (
        Runs.go_on (Step.list 0 (m ∷ []) refl) (
          Runs.go_on (Step.list 1 (m ∷ []) refl) (
            Runs.go_on (Step.post 0 [] m [] refl refl)
              (Runs.go_on (Step.post 1 [] m [] refl refl) Runs.stop))))),
  rw ((eq_iff bot bot).1 refl, (eq_iff m m).1 refl) refl,
)
