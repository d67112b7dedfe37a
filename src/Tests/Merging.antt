-- ===== src/Tests/Merging.antt =====
-- server/auto_merge.go, server/block_pr_merge.go and server/update_branch.go: runs of their theorems.
use mattermost_mattermod.Base.{true, ◌≡◌, refl, [], ◌∷◌, any, mem, ◌&&◌, String, some, is_some}
use mattermost_mattermod.Model.{PullRequest}
use mattermost_mattermod.Server.AutoMerge.Rest.{Grown}
use mattermost_mattermod.Server.AutoMerge.Said.{asked_by}
use mattermost_mattermod.World.{created_status}
use mattermost_mattermod.World.Monad.{returned, log}
use mattermost_mattermod.Store.PullRequests.{where_open}
use mattermost_mattermod.Server.BlockMerge.{set_block_status_for_pr}
use mattermost_mattermod.Server.AutoMerge.{has_auto_merge, auto_merge_one, auto_merge_pr}
use mattermost_mattermod.Server.UpdateBranch.{handle_update_branch}
use mattermost_mattermod.Server.AutoMerge.Readiness.{
  since, Justified, auto_merge_pr-Justified, merges, auto_merge_one_ready,
}
use mattermost_mattermod.Server.BlockMerge.Decision.{merge_status, set_block_status_for_pr_lem}
use mattermost_mattermod.Server.UpdateBranch.Permission.{
  complaint, requested, commented, returns_error, handle_update_branch_lem,
}
use mattermost_mattermod.Tests.{server, world, pr, pull, green, nobody}

auto_merge_pr-Justified_example :
    let after = (auto_merge_pr server world).1.trace in
    Grown world.trace after
    × Justified server (since world.trace) (asked_by server (where_open world.pull_requests)) after
auto_merge_pr-Justified_example = auto_merge_pr-Justified server world

auto_merge_one_ready_example : any (merges pr "abc") (auto_merge_one server pr world).1.trace ≡ true
unfolding has_auto_merge
auto_merge_one_ready_example =
    auto_merge_one_ready server pr pull green nobody world refl (λ t. refl) refl refl (λ t. refl)
      refl refl (λ t. refl) refl refl

-- The pull request with a label that blocks.
abbrev held : PullRequest
held = record pr { labels = "Bug" ∷ "Do Not Merge" ∷ [] }

set_block_status_for_pr_lem_example :
    (label : String) × ((mem label ("Do Not Merge" ∷ "Awaiting PR" ∷ [])
        && mem label ("Bug" ∷ "Do Not Merge" ∷ []))
      ≡ true)
    × (set_block_status_for_pr server held world ≡ (
        let event = created_status "mattermost" "mattermod" "abc" (merge_status true label) in
        (returned tt, log (event (server.outside.write [] event)) world)))
set_block_status_for_pr_lem_example = set_block_status_for_pr_lem server held world refl

handle_update_branch_lem_example :
    let wrong = complaint server world "carol" pr in
    let after = handle_update_branch server "carol" pr world in
    (after.1
      ≡ record world { trace = commented server pr wrong (requested server world "carol" pr) })
    × (returns_error after.0 ≡ some (is_some wrong))
handle_update_branch_lem_example = handle_update_branch_lem server "carol" pr world
