-- ===== src/Server/AutoMerge/Rest.antt =====
-- server/auto_merge.go: what AutoMergePR leaves alone.
use mattermost_mattermod.Base.Text.{◌+++◌}
use mattermost_mattermod.Base.{
  ap, ◌∷◌, ◌++◌, ℕ, List, none, some, ◌≡◌, ◌==◌, ◌||◌, String, not, is_nil,
}
use mattermost_mattermod.Model.{PullRequest, state_closed, mergeable_state_clean}
use mattermost_mattermod.World.{
  World, Event, got_pull, created_comment, counted, ran, select_open, merged_pull, got_reviewers,
  got_combined_status,
}
use mattermost_mattermod.World.Github.{GhPull, MergeResult, Reviewers, CombinedStatus}
use mattermost_mattermod.World.Monad.{Server, M, error, ask, timed}
use mattermost_mattermod.World.Monad.Keeps.{
  Keeps, Keeps-bind, Keeps-pure, Keeps-if, Keeps-Result, Keeps-for_each,
}
use mattermost_mattermod.Server.Github.{comment_on, get_pull, get_state}
use mattermost_mattermod.Server.BlockMerge.{state_success}
use mattermost_mattermod.Store.PullRequests.{list_open}
use mattermost_mattermod.Server.AutoMerge.{
  has_auto_merge, merge_pr, check_reviewers, check_status, auto_merge_one, auto_merge_pr,
}

-- The history has grown, if at all.
abbrev pub Grown : List Event → List Event → Type 0
Grown old t = (added : List Event) × (t ≡ added ++ old)

Grown-cons : (e : Event) (old t : List Event) → Grown old t → Grown old (e ∷ t)
Grown-cons e old t g = (e ∷ g.0, ap (λ t. e ∷ t) g.1)

-- The tables and the queue are those of `w₀`, and the history goes on from that of `w₀`.
abbrev pub Rest : World → World → Type 0
Rest w₀ w =
    (w.pull_requests ≡ w₀.pull_requests)
    × (w.issues ≡ w₀.issues)
    × (w.queue ≡ w₀.queue)
    × Grown w₀.trace w.trace

module _ (w₀ : World) (s : Server) where
  comment_on-Rest : (pr : PullRequest) (msg : String) → Keeps (Rest w₀) (comment_on s pr msg)
  unfolding comment_on
  comment_on-Rest pr msg = record {
    at = λ w h.
        let event = created_comment pr.repo_owner pr.repo_name pr.number msg in
        (h.0, h.1, h.2, Grown-cons (event (s.outside.write w.trace event)) w₀.trace w.trace h.3);
  }

  ask-Rest :
      {A : Type 0} (answer : List Event → A) (event : A → Event)
      → Keeps (Rest w₀) (ask answer event)
  unfolding ask
  ask-Rest answer event = record {
    at = λ w h. (h.0, h.1, h.2, Grown-cons (event (answer w.trace)) w₀.trace w.trace h.3);
  }

  merge_pr-Rest : (pr : PullRequest) (gh_pr : GhPull) → Keeps (Rest w₀) (merge_pr s pr gh_pr)
  unfolding merge_pr
  merge_pr-Rest pr gh_pr = Keeps-bind _ _ (comment_on-Rest pr "Trying to auto merge this PR.") (λ _.
      Keeps-bind _ _
        (ask-Rest
          (λ t. s.outside.merge t pr.repo_owner pr.repo_name pr.number gh_pr.head_sha "squash")
          (merged_pull pr.repo_owner pr.repo_name pr.number gh_pr.head_sha "squash"))
        (λ r.
          Keeps-Result {A = MergeResult} r _ _
            (λ e. comment_on-Rest pr ("Error while trying to automerge the PR\nErr " +++ e.text))
            (λ m. comment_on-Rest pr (m.message +++ "\nSHA: " +++ m.sha))))

  check_reviewers-Rest :
      (pr : PullRequest) (gh_pr : GhPull) → Keeps (Rest w₀) (check_reviewers s pr gh_pr)
  unfolding check_reviewers
  check_reviewers-Rest pr gh_pr =
      Keeps-bind _ _
        (ask-Rest (λ t. s.outside.reviewers t pr.repo_owner pr.repo_name pr.number)
          (got_reviewers pr.repo_owner pr.repo_name pr.number))
        (λ r.
          Keeps-Result {A = Reviewers} r _ _ (λ e. Keeps-pure tt)
            (λ r.
              Keeps-if (not (is_nil r.users) || not (is_nil r.teams)) _ _ (Keeps-pure tt)
                (merge_pr-Rest pr gh_pr)))

  check_status-Rest :
      (pr : PullRequest) (gh_pr : GhPull) → Keeps (Rest w₀) (check_status s pr gh_pr)
  unfolding check_status
  check_status-Rest pr gh_pr =
      Keeps-bind _ _
        (ask-Rest (λ t. s.outside.combined_status t pr.repo_owner pr.repo_name gh_pr.head_sha)
          (got_combined_status pr.repo_owner pr.repo_name gh_pr.head_sha))
        (λ r.
          Keeps-Result {A = CombinedStatus} r _ _ (λ e. Keeps-pure tt)
            (λ status. Keeps-if (not (gh_pr.head_sha == status.sha)) _ _ (Keeps-pure tt) (
              Keeps-if (not (status.state == state_success)) _ _ (Keeps-pure tt)
                (check_reviewers-Rest pr gh_pr))))

  get_pull-Rest :
      (owner name : String) (number : ℕ) → Keeps (Rest w₀) (get_pull s owner name number)
  unfolding get_pull
  get_pull-Rest owner name number =
      ask-Rest (λ t. s.outside.pull t owner name number) (got_pull owner name number)

  auto_merge_one-Rest : (pr : PullRequest) → Keeps (Rest w₀) (auto_merge_one s pr)
  unfolding auto_merge_one
  auto_merge_one-Rest pr = Keeps-if (not (has_auto_merge s pr.labels)) _ _ (Keeps-pure tt) (
      Keeps-bind _ _ (get_pull-Rest pr.repo_owner pr.repo_name pr.number) (λ r.
        Keeps-Result r _ _ (λ e. Keeps-pure tt)
          (λ gh_pr. Keeps-if (get_state gh_pr == state_closed) _ _ (Keeps-pure tt) (
            Keeps-if (not (gh_pr.mergeable_state == mergeable_state_clean)) _ _ (Keeps-pure tt)
              (check_status-Rest pr gh_pr)))))

  list_open-Rest : Keeps (Rest w₀) (list_open s)
  unfolding list_open
  list_open-Rest = record {
    at = λ w h. (
      h.0,
      h.1,
      h.2,
      Grown-cons (ran select_open (s.outside.statement w.trace select_open)) w₀.trace w.trace h.3,
    );
  }

  timed-Rest :
      {A : Type 0} (name : String) (m : M A) → Keeps (Rest w₀) m → Keeps (Rest w₀) (timed name m)
  unfolding timed
  timed-Rest name m k = record {
    at = λ w h.
        let v = k.at w h in
        let e = counted "ObserveCronTaskDuration" name in
        (v.0, v.1, v.2, Grown-cons e w₀.trace (m w).1.trace v.3);
  }

  pub auto_merge_pr-Rest : Keeps (Rest w₀) (auto_merge_pr s)
  unfolding auto_merge_pr
  auto_merge_pr-Rest = timed-Rest _ _ (
      Keeps-bind _ _ list_open-Rest (λ r.
        Keeps-Result r _ _
          (λ e. Keeps-pure (some (error ("error while listing open PRs " +++ e.text))))
          (λ prs.
            Keeps-bind _ _ (Keeps-for_each prs _ auto_merge_one-Rest) (λ _. Keeps-pure none))))
