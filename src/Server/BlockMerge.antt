-- ===== src/Server/BlockMerge.antt =====
-- server/block_pr_merge.go, and the parts of server/pull_request_handler.go that decide on a block.
pub mod Decision
use mattermost_mattermod.Base.{
  String, Bool, true, false, Option, none, some, List, [], ◌∷◌, ◌==◌, ◌||◌, if◌then◌else◌, mem,
}
use mattermost_mattermod.Base.Text.{◌+++◌}
use mattermost_mattermod.Model.{PullRequest, state_closed}
use mattermost_mattermod.World.{created_status}
use mattermost_mattermod.World.Github.{Error, RepoStatus}
use mattermost_mattermod.World.Monad.{Server, M, ◌>>=◌, ◌>>◌, pure, done, write}

abbrev pub state_pending : String
state_pending = "pending"

abbrev pub state_success : String
state_success = "success"

abbrev pub state_error : String
state_error = "error"

-- isBlockPRMerge
unfoldable pub is_block_pr_merge : Server → String → Bool
is_block_pr_merge s label = mem label s.config.block_pr_merge_labels

-- isBlockPRMergeInLabels
unfoldable pub is_block_pr_merge_in_labels : Server → List String → Bool
unfolding is_block_pr_merge
is_block_pr_merge_in_labels s [] = false
is_block_pr_merge_in_labels s (label ∷ labels) =
    is_block_pr_merge s label || is_block_pr_merge_in_labels s labels

-- The first of the block labels, in their order, that the pull request has.
first_block_label : List String → List String → String
first_block_label [] pr_labels = ""
first_block_label (block_label ∷ block_labels) pr_labels =
    if mem block_label pr_labels then block_label else first_block_label block_labels pr_labels

-- getBlockLabelFromPR
unfoldable pub get_block_label_from_pr : Server → List String → String
unfolding first_block_label
get_block_label_from_pr s pr_labels = first_block_label s.config.block_pr_merge_labels pr_labels

abbrev pub blocked_status : Server → PullRequest → RepoStatus
blocked_status s pr = record {
  state = state_pending;
  description = "Merge blocked due " +++ get_block_label_from_pr s pr.labels +++ " label";
  target_url = "";
  context = "merge/blocked";
}

abbrev pub allowed_status : RepoStatus
allowed_status = record {
  state = state_success;
  description = "Merged allowed";
  target_url = "";
  context = "merge/blocked";
}

-- blockPRMerge
unfoldable pub block_pr_merge : Server → PullRequest → M (Option Error)
unfolding ◌>>=◌
block_pr_merge s pr =
    if pr.state == state_closed
    then pure none
    else write s (created_status pr.repo_owner pr.repo_name pr.sha (blocked_status s pr))

-- unblockPRMerge
unfoldable pub unblock_pr_merge : Server → PullRequest → M (Option Error)
unfolding ◌>>=◌
unblock_pr_merge s pr =
    if pr.state == state_closed
    then pure none
    else write s (created_status pr.repo_owner pr.repo_name pr.sha allowed_status)

-- setBlockStatusForPR
unfoldable pub set_block_status_for_pr : Server → PullRequest → M (Unit {0})
unfolding ◌>>=◌ is_block_pr_merge_in_labels block_pr_merge unblock_pr_merge
set_block_status_for_pr s pr = do
  _ ←
      (if is_block_pr_merge_in_labels s pr.labels
        then block_pr_merge s pr
        else unblock_pr_merge s pr)
  done
