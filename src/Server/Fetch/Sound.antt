-- ===== src/Server/Fetch/Sound.antt =====
-- server/github.go: what fetches a pull request or an issue keeps the program sound.
use mattermost_mattermod.Base.{ℕ, String, arith, inl, inr}
use mattermost_mattermod.Model.{PullRequest}
use mattermost_mattermod.World.{World}
use mattermost_mattermod.World.Github.{Result, GhPull, GhIssue, Result-cases}
use mattermost_mattermod.World.Monad.{Server, M}
use mattermost_mattermod.World.Monad.Keeps.{
  Keeps, Keeps-bind, Keeps-pure, Keeps-Result, Keeps-attempt,
}
use mattermost_mattermod.World.Frame.{Same}
use mattermost_mattermod.Server.Frame.{labels_to_string_array-Same, get_pull-Same, list_labels-Same}
use mattermost_mattermod.Server.Github.{get_pull, list_labels, labels_to_string_array}
use mattermost_mattermod.Server.Soundness.{Sound, Keeps-Same, save-Sound}
use mattermost_mattermod.Server.Fetch.{
  with_build, with_labels, store_pull_request, label_and_store, pull_request_of,
  get_pull_request_from_github, wrapped, get_pr_from_issue_comment_event, issue_repository,
  get_issue_from_github,
}

with_build-Same : (s : Server) (pr : PullRequest) (w : World) → Same w (with_build s pr w).1
unfolding with_build
with_build-Same s pr w = ground arith

with_labels-Same :
    (s : Server) (action : String) (pr : PullRequest) (w : World)
    → Same w (with_labels s action pr w).1
unfolding with_labels
with_labels-Same s action pr w =
    let w₁ = (list_labels s pr.repo_owner pr.repo_name pr.number w).1 in
    elim (Result-cases (s.outside.labels w.trace pr.repo_owner pr.repo_name pr.number)) [
      | inl (labels, e) ↦ ground (arith, labels_to_string_array-Same labels w₁)
      | inr (x, e) ↦ ground arith
    ]

wrapped-Sound :
    {A : Type 0} (s : Server) (msg : String) (m : M (Result A))
    → Keeps (Sound s) m
    → Keeps (Sound s) (wrapped msg m)
unfolding wrapped
wrapped-Sound s msg m k =
    Keeps-bind m _ k (λ r. Keeps-Result r _ _ (λ e. Keeps-pure _) (λ a. Keeps-pure _))

module _ (s : Server) where
  store_pull_request-Sound : (pr : PullRequest) → Keeps (Sound s) (store_pull_request s pr)
  unfolding store_pull_request
  store_pull_request-Sound pr = Keeps-attempt _ _ (save-Sound s pr) (λ _. Keeps-pure _)

  pub get_pull_request_from_github-Sound :
      (pull : GhPull) (action : String)
      → Keeps (Sound s) (get_pull_request_from_github s pull action)
  unfolding get_pull_request_from_github label_and_store
  get_pull_request_from_github-Sound pull action =
      let p = pull_request_of pull in
      Keeps-attempt (with_build s p) (label_and_store s action)
        (Keeps-Same s (with_build s p) (with_build-Same s p))
        (λ built.
          Keeps-attempt (with_labels s action built) (store_pull_request s)
            (Keeps-Same s (with_labels s action built) (with_labels-Same s action built))
            store_pull_request-Sound)

  pub get_pr_from_issue_comment_event-Sound :
      (owner name : String) (number : ℕ) (action : String)
      → Keeps (Sound s) (get_pr_from_issue_comment_event s owner name number action)
  unfolding get_pr_from_issue_comment_event
  get_pr_from_issue_comment_event-Sound owner name number action =
      Keeps-attempt _ _
        (wrapped-Sound s _ _
          (Keeps-Same s (get_pull s owner name number) (get_pull-Same s owner name number)))
        (λ pull. wrapped-Sound s _ _ (get_pull_request_from_github-Sound pull action))

  pub get_issue_from_github-Sound :
      (issue : GhIssue) → Keeps (Sound s) (get_issue_from_github s issue)
  unfolding get_issue_from_github
  get_issue_from_github-Sound issue = Keeps-attempt _ _ (Keeps-pure (issue_repository issue)) (λ r.
      Keeps-attempt _ _
        (Keeps-Same s (list_labels s r.0 r.1 issue.number)
          (list_labels-Same s r.0 r.1 issue.number))
        (λ labels.
          Keeps-bind _ _
            (Keeps-Same s (labels_to_string_array labels) (labels_to_string_array-Same labels))
            (λ names. Keeps-pure _)))
