-- ===== src/Server/AutoMerge/Readiness.antt =====
-- server/auto_merge.go: nothing is merged that is not ready.
use mattermost_mattermod.Base.{
  ℕ, String, Bool, true, false, not, ◌&&◌, ◌≡◌, none, List, [], ◌∷◌, ◌==◌, any, All, arith, refl,
  nat_eq, inl, inr, eq_iff, ◌||◌, leb, ◌≤◌, length,
}
use mattermost_mattermod.Model.{PullRequest, state_closed, mergeable_state_clean}
use mattermost_mattermod.World.{
  World, Event, got_pull, got_combined_status, got_reviewers, merged_pull, ran, select_open,
}
use mattermost_mattermod.World.Github.{ok, GhPull, CombinedStatus, Reviewers, Result-cases}
use mattermost_mattermod.World.Monad.{Server, for_each, log}
use mattermost_mattermod.World.Frame.{merges_of}
use mattermost_mattermod.Store.PullRequests.{where_open}
use mattermost_mattermod.Server.Github.{get_state}
use mattermost_mattermod.Server.BlockMerge.{state_success}
use mattermost_mattermod.Server.AutoMerge.Rest.{Grown, auto_merge_pr-Rest}
use mattermost_mattermod.Server.AutoMerge.Said.{
  says_clean, says_success, says_reviewed, Listed, asked_by, every_row_asks, every_row_passes,
}
use mattermost_mattermod.Server.AutoMerge.{
  has_auto_merge, merge_pr, check_reviewers, check_status, auto_merge_one, auto_merge_pr,
}

module _ (s : Server) (counts : List Event → Bool) (asked : String → String → ℕ → Bool) where
  -- A merge, if it counts after what had been said, is one that this allows: of a pull request that
  -- the test knows.
  abbrev pub Allowed : Event × List Event → Type 0
  Allowed (merged_pull owner name number sha method r, t) =
      ((not (counts t) || any (says_clean owner name number sha) t) ≡ true)
      × ((not (counts t) || any (says_success owner name sha) t) ≡ true)
      × ((not (counts t) || any (says_reviewed owner name number) t) ≡ true)
      × ((not (counts t) || asked owner name number) ≡ true)
      × ((not (counts t) || (method == "squash")) ≡ true)
  Allowed (e, t) = Unit {0}

  -- Every merge of the history that counts was allowed by what had been said before it.
  abbrev pub Justified : List Event → Type 0
  Justified t = All Allowed (merges_of t)

  merge_pr-Justified :
      (pr : PullRequest) (pull : GhPull) (w : World)
      → Justified w.trace
      → any (says_clean pr.repo_owner pr.repo_name pr.number pull.head_sha) w.trace ≡ true
      → any (says_success pr.repo_owner pr.repo_name pull.head_sha) w.trace ≡ true
      → any (says_reviewed pr.repo_owner pr.repo_name pr.number) w.trace ≡ true
      → asked pr.repo_owner pr.repo_name pr.number ≡ true
      → Justified (merge_pr s pr pull w).1.trace
  unfolding merge_pr
  merge_pr-Justified pr pull w j c t r a = ground (arith, eq_iff "squash" "squash")

  check_reviewers-Justified :
      (pr : PullRequest) (pull : GhPull) (w : World)
      → Justified w.trace
      → any (says_clean pr.repo_owner pr.repo_name pr.number pull.head_sha) w.trace ≡ true
      → any (says_success pr.repo_owner pr.repo_name pull.head_sha) w.trace ≡ true
      → asked pr.repo_owner pr.repo_name pr.number ≡ true
      → Justified (check_reviewers s pr pull w).1.trace
  unfolding check_reviewers
  check_reviewers-Justified pr pull w j c t a = ground (
    arith,
    eq_iff pr.repo_owner pr.repo_owner,
    eq_iff pr.repo_name pr.repo_name,
    merge_pr-Justified pr pull (
        log
          (got_reviewers pr.repo_owner pr.repo_name pr.number
            (s.outside.reviewers w.trace pr.repo_owner pr.repo_name pr.number))
          w),
  )

  check_status-Justified :
      (pr : PullRequest) (pull : GhPull) (w : World)
      → Justified w.trace
      → any (says_clean pr.repo_owner pr.repo_name pr.number pull.head_sha) w.trace ≡ true
      → asked pr.repo_owner pr.repo_name pr.number ≡ true
      → Justified (check_status s pr pull w).1.trace
  unfolding check_status
  check_status-Justified pr pull w j c a = ground (
    arith,
    eq_iff pr.repo_owner pr.repo_owner,
    eq_iff pr.repo_name pr.repo_name,
    eq_iff pull.head_sha pull.head_sha,
    check_reviewers-Justified pr pull (
        log
          (got_combined_status pr.repo_owner pr.repo_name pull.head_sha
            (s.outside.combined_status w.trace pr.repo_owner pr.repo_name pull.head_sha))
          w),
  )

  auto_merge_one-Justified :
      (pr : PullRequest) (w : World)
      → Listed s asked pr
      → Justified w.trace
      → Justified (auto_merge_one s pr w).1.trace
  unfolding auto_merge_one
  auto_merge_one-Justified pr w listed j =
      elim (Result-cases (s.outside.pull w.trace pr.repo_owner pr.repo_name pr.number)) [
        | inr (e, answer) ↦ ground arith
        | inl (pull, answer) ↦ ground (
          arith,
          eq_iff pr.repo_owner pr.repo_owner,
          eq_iff pr.repo_name pr.repo_name,
          eq_iff pull.head_sha pull.head_sha,
          check_status-Justified pr pull
              (log (got_pull pr.repo_owner pr.repo_name pr.number (ok pull)) w),
        )
      ]

  auto_merge_each-Justified :
      (prs : List PullRequest) (w : World)
      → All (Listed s asked) prs
      → Justified w.trace
      → Justified (for_each prs (auto_merge_one s) w).1.trace
  unfolding for_each
  auto_merge_each-Justified [] w listed j = j
  auto_merge_each-Justified (pr ∷ prs) w listed j = ground (
    arith,
    auto_merge_one-Justified pr w listed.0 j,
    auto_merge_each-Justified prs (auto_merge_one s pr w).1 listed.1,
  )

-- The history `t` is `old` or has come since, if it goes on from `old`: it is no shorter.
abbrev pub since : List Event → List Event → Bool
since old t = leb (length old) (length t)

-- No merge of a history comes since that history.
nothing_since :
    (s : Server) (asked : String → String → ℕ → Bool) (old t : List Event)
    → length t ≤ length old
    → Justified s (since old) asked t
nothing_since s asked old [] h = tt
nothing_since s asked old (merged_pull o n k sha method r ∷ t) h =
    let short : leb (length old) (length t) ≡ false = ground (arith, h) in
    ground (arith, short, nothing_since s asked old t (omega (arith, h)))
nothing_since s asked old (e ∷ t) h = nothing_since s asked old t (omega (arith, h))

-- AutoMergePR adds to the history, and every merge that it adds, whatever the history is and whatever
-- GitHub and the database answer, is a squash merge of an open stored pull request with the auto-merge label, at a commit `sha`
-- of which GitHub has said before that it is the head of the open pull request and clean to merge, that
-- its combined status is a success, and that no review of the pull request is outstanding.
pub auto_merge_pr-Justified :
    (s : Server) (w : World)
    → let after = (auto_merge_pr s w).1.trace in
      Grown w.trace after
      × Justified s (since w.trace) (asked_by s (where_open w.pull_requests)) after
unfolding auto_merge_pr
auto_merge_pr-Justified s w =
    let rows = where_open w.pull_requests in
    (
      ((auto_merge_pr-Rest w s).at w (refl, refl, refl, ([], refl))).3,
      ground (
        arith,
        nothing_since s (asked_by s rows) w.trace w.trace (omega arith),
        auto_merge_each-Justified s (since w.trace) (asked_by s rows) rows
            (log (ran select_open none) w) (every_row_asks s rows),
      ),
    )

-- Whatever the rows are, the merges of AutoMergePR keep the history justified by what GitHub has said.
pub auto_merge_pr-said :
    (s : Server) (w : World)
    → Justified s (λ t. true) (λ owner name number. true) w.trace
    → Justified s (λ t. true) (λ owner name number. true) (auto_merge_pr s w).1.trace
unfolding auto_merge_pr
auto_merge_pr-said s w j =
    let rows = where_open w.pull_requests in
    ground (
      arith,
      auto_merge_each-Justified s (λ t. true) (λ o n k. true) rows (log (ran select_open none) w)
          (every_row_passes s rows),
    )

-- The history has a merge of the pull request at the commit.
abbrev pub merges : PullRequest → String → Event → Bool
merges pr sha (merged_pull owner name number h method r) =
    (owner == pr.repo_owner) && (name == pr.repo_name) && nat_eq number pr.number && (h == sha)
merges pr sha e = false

-- A round merges what is ready: the label is there, GitHub says that the pull request is open and
-- clean to merge, the combined status of its head is a success, and no review is outstanding.
pub auto_merge_one_ready :
    (s : Server) (pr : PullRequest) (pull : GhPull) (status : CombinedStatus) (r : Reviewers)
    (w : World)
    → has_auto_merge s pr.labels ≡ true
    → ((t : List Event) → s.outside.pull t pr.repo_owner pr.repo_name pr.number ≡ ok pull)
    → (get_state pull == state_closed) ≡ false
    → pull.mergeable_state ≡ mergeable_state_clean
    → ((t : List Event)
        → s.outside.combined_status t pr.repo_owner pr.repo_name pull.head_sha ≡ ok status)
    → status.sha ≡ pull.head_sha
    → status.state ≡ state_success
    → ((t : List Event) → s.outside.reviewers t pr.repo_owner pr.repo_name pr.number ≡ ok r)
    → r.users ≡ []
    → r.teams ≡ []
    → any (merges pr pull.head_sha) (auto_merge_one s pr w).1.trace ≡ true
unfolding auto_merge_one merge_pr
auto_merge_one_ready s pr pull status r w label p not_closed clean c sha success v users teams =
    let w₁ = log (got_pull pr.repo_owner pr.repo_name pr.number (ok pull)) w in
    let w₂ = log (got_combined_status pr.repo_owner pr.repo_name pull.head_sha (ok status)) w₁ in
    ground (
      arith,
      p w.trace,
      c w₁.trace,
      v w₂.trace,
      eq_iff pull.mergeable_state mergeable_state_clean,
      eq_iff pull.head_sha status.sha,
      eq_iff status.state state_success,
      eq_iff pr.repo_owner pr.repo_owner,
      eq_iff pr.repo_name pr.repo_name,
      eq_iff pull.head_sha pull.head_sha,
    )
