-- ===== src/Server/Frame.antt =====
-- The handlers that call GitHub and the webhooks, but leave the tables and the queue alone and merge
-- nothing.
use mattermost_mattermod.Base.{
  ◌≡◌, refl, List, [], ◌∷◌, arith, ℕ, zero, suc, String, Bool, inl, inr, ◌++◌,
}
use mattermost_mattermod.World.{World}
use mattermost_mattermod.World.Monad.{Server, M, Outcome-cases}
use mattermost_mattermod.World.Frame.{Same}
use mattermost_mattermod.World.Github.{Result, Result-cases, Page, Label, Comment}
use mattermost_mattermod.Model.{PullRequest, Key}
use mattermost_mattermod.Server.Github.{
  get_pull, list_labels, comment_on, labels_to_string_array, message_by_user_contains,
}
use mattermost_mattermod.Store.PullRequests
use mattermost_mattermod.Store.Issues
use mattermost_mattermod.Server.BlockMerge.{set_block_status_for_pr, unblock_pr_merge}
use mattermost_mattermod.Server.Pages.{all_pages, get_comments, get_members}
use mattermost_mattermod.Server.Webhook.{log_to_mattermost, handle_translation_pr}
use mattermost_mattermod.Server.Fetch.Stored.{labels_to_string_array-world}
use mattermost_mattermod.World.Config.{Repository}
use mattermost_mattermod.Server.Cla.{handle_check_cla}
use mattermost_mattermod.Server.Review.{review_mlog}
use mattermost_mattermod.Server.AutoAssign.{handle_auto_assign}
use mattermost_mattermod.Server.UpdateBranch.{handle_update_branch}
use mattermost_mattermod.Server.Community.{
  add_hacktoberfest_label, post_pr_welcome_message, assign_greeter, assign_greeting_labels,
}

pub handle_check_cla-Same :
    (s : Server) (pr : PullRequest) (w : World) → Same w (handle_check_cla s pr w).1
unfolding handle_check_cla
handle_check_cla-Same s pr w = ground arith

pub review_mlog-Same :
    (s : Server) (pr : PullRequest) (node_id diff_url : String) (w : World)
    → Same w (review_mlog s pr node_id diff_url w).1
unfolding review_mlog
review_mlog-Same s pr node_id diff_url w = ground arith

pub handle_auto_assign-Same :
    (s : Server) (url : String) (pr : PullRequest) (w : World)
    → Same w (handle_auto_assign s url pr w).1
unfolding handle_auto_assign
handle_auto_assign-Same s url pr w = ground arith

pub handle_update_branch-Same :
    (s : Server) (commenter : String) (pr : PullRequest) (w : World)
    → Same w (handle_update_branch s commenter pr w).1
unfolding handle_update_branch
handle_update_branch-Same s commenter pr w = ground arith

pub handle_translation_pr-Same :
    (s : Server) (pr : PullRequest) (w : World) → Same w (handle_translation_pr s pr w).1
unfolding handle_translation_pr
handle_translation_pr-Same s pr w = ground arith

pub log_to_mattermost-Same :
    (s : Server) (msg : String) (w : World) → Same w (log_to_mattermost s msg w).1
unfolding log_to_mattermost
log_to_mattermost-Same s msg w = ground arith

pub add_hacktoberfest_label-Same :
    (s : Server) (pr : PullRequest) (w : World) → Same w (add_hacktoberfest_label s pr w).1
unfolding add_hacktoberfest_label
add_hacktoberfest_label-Same s pr w = ground arith

pub post_pr_welcome_message-Same :
    (s : Server) (pr : PullRequest) (needed : Bool) (w : World)
    → Same w (post_pr_welcome_message s pr needed w).1
unfolding post_pr_welcome_message
post_pr_welcome_message-Same s pr needed w = ground arith

pub assign_greeter-Same :
    (s : Server) (pr : PullRequest) (repo : Repository) (w : World)
    → Same w (assign_greeter s pr repo w).1
unfolding assign_greeter
assign_greeter-Same s pr repo w = ground arith

pub assign_greeting_labels-Same :
    (s : Server) (pr : PullRequest) (repo : Repository) (w : World)
    → Same w (assign_greeting_labels s pr repo w).1
unfolding assign_greeting_labels
assign_greeting_labels-Same s pr repo w = ground arith

pub labels_to_string_array-Same :
    (labels : List Label) (w : World) → Same w (labels_to_string_array labels w).1
labels_to_string_array-Same labels w =
    rw (labels_to_string_array-world labels w) (refl, refl, refl, refl)

pub message_by_user_contains-world :
    (comments : List Comment) (username text : String) (w : World)
    → (message_by_user_contains comments username text w).1 ≡ w
unfolding message_by_user_contains
message_by_user_contains-world [] username text w = refl
message_by_user_contains-world (c ∷ cs) username text w =
    ground (arith, message_by_user_contains-world cs username text w)

all_pages-Same :
    {A : Type 0} (fuel : ℕ) (fetch : ℕ → M (Result (Page A))) (failed : String) (page : ℕ)
    (items : List A) (w : World)
    → ((page : ℕ) (w : World) → Same w (fetch page w).1)
    → Same w (all_pages fuel fetch failed page items w).1
unfolding all_pages
all_pages-Same zero fetch failed page items w h = (refl, refl, refl, refl)
all_pages-Same (suc f) fetch failed page items w h =
    let first = h page w in
    elim (Outcome-cases (fetch page w).0) [
      | inr (inl e) ↦ ground (arith, first)
      | inr (inr e) ↦ ground (arith, first)
      | inl (r, e) ↦ elim (Result-cases r) [
        | inr (x, q) ↦ ground (arith, first)
        | inl (p, q) ↦ ground (
          arith,
          first,
          all_pages-Same f fetch failed p.next_page (items ++ p.items) (fetch page w).1 h,
        )
      ]
    ]

pub get_comments-Same :
    (s : Server) (owner name : String) (number : ℕ) (w : World)
    → Same w (get_comments s owner name number w).1
unfolding get_comments
get_comments-Same s owner name number w =
    all_pages-Same s.fuel _ _ 0 [] w (λ page w. (refl, refl, refl, refl))

pub get_members-Same : (s : Server) (w : World) → Same w (get_members s w).1
unfolding get_members
get_members-Same s w = all_pages-Same s.fuel _ _ 0 [] w (λ page w. (refl, refl, refl, refl))

pub get_pr-Same : (s : Server) (k : Key) (w : World) → Same w (PullRequests.get s k w).1
unfolding PullRequests.get
get_pr-Same s k w = (refl, refl, refl, refl)

pub get_issue-Same : (s : Server) (k : Key) (w : World) → Same w (Issues.get s k w).1
unfolding Issues.get
get_issue-Same s k w = (refl, refl, refl, refl)

pub list_open-Same : (s : Server) (w : World) → Same w (PullRequests.list_open s w).1
unfolding PullRequests.list_open
list_open-Same s w = (refl, refl, refl, refl)

pub get_pull-Same :
    (s : Server) (owner name : String) (number : ℕ) (w : World)
    → Same w (get_pull s owner name number w).1
unfolding get_pull
get_pull-Same s owner name number w = (refl, refl, refl, refl)

pub list_labels-Same :
    (s : Server) (owner name : String) (number : ℕ) (w : World)
    → Same w (list_labels s owner name number w).1
unfolding list_labels
list_labels-Same s owner name number w = (refl, refl, refl, refl)

pub comment_on-Same :
    (s : Server) (pr : PullRequest) (msg : String) (w : World) → Same w (comment_on s pr msg w).1
unfolding comment_on
comment_on-Same s pr msg w = ground arith

pub set_block_status_for_pr-Same :
    (s : Server) (pr : PullRequest) (w : World) → Same w (set_block_status_for_pr s pr w).1
unfolding set_block_status_for_pr
set_block_status_for_pr-Same s pr w = ground arith

pub unblock_pr_merge-Same :
    (s : Server) (pr : PullRequest) (w : World) → Same w (unblock_pr_merge s pr w).1
unfolding unblock_pr_merge
unblock_pr_merge-Same s pr w = ground arith
