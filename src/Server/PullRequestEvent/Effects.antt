-- ===== src/Server/PullRequestEvent/Effects.antt =====
-- server/pull_request_handler.go: what the events of a pull request lead to.
use mattermost_mattermod.Base.{
  String, true, false, ◌≡◌, none, some, ◌==◌, mem, arith, Option-cases, inl, inr,
}
use mattermost_mattermod.Model.{PullRequest, state_closed}
use mattermost_mattermod.World.{World, created_status}
use mattermost_mattermod.World.Monad.{Server, Outcome-cases, returned, log}
use mattermost_mattermod.Server.BlockMerge.{is_block_pr_merge, allowed_status}
use mattermost_mattermod.Server.Cla.{handle_check_cla}
use mattermost_mattermod.Server.Review.{review_mlog}
use mattermost_mattermod.World.Config.{get_repository}
use mattermost_mattermod.Server.Webhook.{handle_translation_pr}
use mattermost_mattermod.Server.Community.Greeting.{
  add_hacktoberfest_label-member, post_pr_welcome_message-member, assign_greeter-member,
  assign_greeting_labels-member,
}
use mattermost_mattermod.Server.PullRequestEvent.{
  PullRequestEvent, greet, on_labeled, on_opened, on_reopened,
}

-- When a label that is configured to block, and is not the label for automatic merges, is put on a
-- pull request that is not closed, the event's handler sets the status to success and does no more:
-- the pull request is unblocked by the label that is to block it.
on_labeled_unblocks :
    (s : Server) (event : PullRequestEvent) (pr : PullRequest) (name : String) (w : World)
    → event.label ≡ some (record { name = some name })
    → is_block_pr_merge s name ≡ true
    → (name == s.config.auto_pr_merge_label) ≡ false
    → (pr.state == state_closed) ≡ false
    → let event' = created_status pr.repo_owner pr.repo_name pr.sha allowed_status in
      on_labeled s event pr w ≡ (returned true, log (event' (s.outside.write w.trace event')) w)
unfolding on_labeled
on_labeled_unblocks s event pr name w labeled blocks other not_closed = ground arith

handle_check_cla-org_members :
    (s : Server) (pr : PullRequest) (w : World)
    → (handle_check_cla s pr w).1.org_members ≡ w.org_members
unfolding handle_check_cla
handle_check_cla-org_members s pr w = ground arith

module _ (s : Server) (pr : PullRequest) (w : World)
    (member : mem pr.username w.org_members ≡ true) where
  greet-member : greet s pr w ≡ (returned tt, w)
  unfolding greet
  greet-member =
      elim (Option-cases (get_repository s.config.repositories pr.repo_owner pr.repo_name)) [
        | inl missing ↦ ground arith
        | inr (repo, found) ↦ ground (
          arith,
          assign_greeter-member s pr w member repo,
          assign_greeting_labels-member s pr w member repo,
        )
      ]

  review_mlog-member :
      (node_id diff_url : String) → review_mlog s pr node_id diff_url w ≡ (returned none, w)
  unfolding review_mlog
  review_mlog-member node_id diff_url = ground arith

handle_translation_pr-org_members :
    (s : Server) (pr : PullRequest) (w : World)
    → (handle_translation_pr s pr w).1.org_members ≡ w.org_members
unfolding handle_translation_pr
handle_translation_pr-org_members s pr w = ground arith

-- A pull request that a member of the organization opens is treated as one that is reopened: no
-- welcome message, no greeter, no label and no review, whatever happens on the way.
on_opened-member :
    (s : Server) (event : PullRequestEvent) (pr : PullRequest) (w : World)
    → mem pr.username w.org_members ≡ true
    → on_opened s event pr w ≡ on_reopened s pr w
unfolding on_opened on_reopened
on_opened-member s event pr w member =
    let w₁ = (handle_check_cla s pr w).1 in
    let w₂ = (handle_translation_pr s pr w₁).1 in
    let m₁ : mem pr.username w₁.org_members ≡ true =
      rw (handle_check_cla-org_members s pr w) member in
    let m₂ : mem pr.username w₂.org_members ≡ true =
      rw (handle_translation_pr-org_members s pr w₁) m₁ in
    elim (Outcome-cases (handle_check_cla s pr w).0) [
      | inl (cla, e) ↦ ground (
        arith,
        post_pr_welcome_message-member s pr w₁ m₁ cla.0,
        add_hacktoberfest_label-member s pr w₁ m₁,
        greet-member s pr w₂ m₂,
        review_mlog-member s pr w₂ m₂ event.pull_request.node_id event.pull_request.diff_url,
      )
      | inr (inl e) ↦ ground arith
      | inr (inr e) ↦ ground arith
    ]
