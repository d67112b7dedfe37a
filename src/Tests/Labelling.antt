-- ===== src/Tests/Labelling.antt =====
-- The comment lock and the label arrays: runs of their theorems.
use mattermost_mattermod.Base.{
  ℕ, zero, suc, ◌≤◌, String, ◌≡◌, refl, none, some, List, [], ◌∷◌, arith,
}
use mattermost_mattermod.Model.{Issue}
use mattermost_mattermod.Model.StringArray.{Scanned, scan, value, scan-value}
use mattermost_mattermod.World.Config.{LabelResponse}
use mattermost_mattermod.World.Monad.{for_each}
use mattermost_mattermod.Server.IssueEvent.{answer_issue_label}
use mattermost_mattermod.Server.CommentLock.{
  Post, Phase, State, Step, Runs, said, times, occurrences, answers,
}
use mattermost_mattermod.Server.CommentLock.Once.{Starts, Runs-posts_once}
use mattermost_mattermod.Server.CommentLock.Progress.{work, Moves, Runs-Moves}
use mattermost_mattermod.Server.CommentLock.Twice.{two_phases, two_goroutines, Runs-posts_twice}
use mattermost_mattermod.Server.CommentLock.Source.{
  as_comment, unsaid, send, for_each-answer_issue_label,
}
use mattermost_mattermod.Tests.{server}
use mathlib.Core.List.{map}

-- A label with characters that JSON and HTML treat in their own way.
abbrev odd_label : String
odd_label = "a \"quoted\" <label>\n\\ and \u{1}\u{2028}"

scan-value_example :
    scan none (value (some (odd_label ∷ "Bug" ∷ [])))
    ≡ Scanned.scanned (some (odd_label ∷ "Bug" ∷ []))
scan-value_example = scan-value none (some (odd_label ∷ "Bug" ∷ []))

abbrev thanks : Post
thanks = record { user = "mattermod"; body = "Thanks" }

-- The goroutines of one process, after both have answered.
abbrev answered : State
answered = record { holder = λ process. none; comments = thanks ∷ []; phase = λ i. Phase.returned }

two_Starts : (i : ℕ) → Starts "Thanks" (two_phases "Thanks" i)
unfolding occurrences
two_Starts zero = omega arith
two_Starts (suc zero) = omega arith
two_Starts (suc (suc i)) = tt

-- The second goroutine waits for the first, reads its answer and posts none.
one_after_the_other : (t : State) × Runs "mattermod" "Thanks" (λ i. 0) (two_goroutines "Thanks") t
unfolding said
one_after_the_other = (
  _,
  Runs.go_on (Step.lock 0 ("Thanks" ∷ []) refl refl) (
      Runs.go_on (Step.list 0 ("Thanks" ∷ []) refl) (
        Runs.go_on (Step.post 0 [] "Thanks" [] refl refl) (
          Runs.go_on (Step.unlock 0 [] refl) (
            Runs.go_on (Step.lock 1 ("Thanks" ∷ []) refl refl) (
              Runs.go_on (Step.list 1 ("Thanks" ∷ []) refl) (
                Runs.go_on (Step.skip 1 (thanks ∷ []) "Thanks" [] refl refl)
                  (Runs.go_on (Step.unlock 1 (thanks ∷ []) refl) Runs.stop))))))),
)

Runs-posts_once_example : times "mattermod" "Thanks" one_after_the_other.0.comments ≤ 1
unfolding times
Runs-posts_once_example =
    Runs-posts_once "mattermod" "Thanks" (λ i. 0) (λ i j. refl) two_Starts (omega arith)
      one_after_the_other.1

Runs-posts_twice_example :
    (t : State) × Runs "mattermod" "Thanks" (λ i. i) (two_goroutines "Thanks") t
    × (times "mattermod" "Thanks" t.comments ≡ 2)
Runs-posts_twice_example = Runs-posts_twice "mattermod" "Thanks"

abbrev issue : Issue
issue = record {
  repo_owner = "mattermost";
  repo_name = "mattermod";
  username = "carol";
  state = "open";
  labels = "Bug" ∷ [];
  number = 12;
}

abbrev responses : List LabelResponse
responses =
    record { label = "Bug"; message = "Thanks" }
    ∷ record { label = "Bug"; message = "Hello USERNAME" }
    ∷ []

for_each-answer_issue_label_example :
    for_each responses (answer_issue_label server issue "Bug" (map as_comment (thanks ∷ [])))
    ≡ for_each
        (unsaid (thanks ∷ []) "mattermod" (answers responses "carol" "Bug"))
        (send server issue "Bug" (thanks ∷ []))
for_each-answer_issue_label_example =
    for_each-answer_issue_label server issue "Bug" (thanks ∷ []) responses

-- The first goroutine is behind the lock, and the second waits.
one_inside : (t : State) × Runs "mattermod" "Thanks" (λ i. 0) (two_goroutines "Thanks") t
one_inside = (_, Runs.go_on (Step.lock 0 ("Thanks" ∷ []) refl refl) Runs.stop)

Runs-Moves_example : (j : ℕ) × Moves "mattermod" "Thanks" (λ i. 0) one_inside.0 j
unfolding work one_inside
Runs-Moves_example =
    Runs-Moves "mattermod" "Thanks" (λ i. 0) (λ p. refl) one_inside.1 1 (omega arith)
