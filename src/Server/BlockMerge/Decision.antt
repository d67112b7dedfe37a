-- ===== src/Server/BlockMerge/Decision.antt =====
-- server/block_pr_merge.go: the status of a pull request follows its labels.
use mattermost_mattermod.Base.{
  String, true, false, ◌≡◌, refl, List, [], ◌∷◌, ◌==◌, any, mem, arith, eq_iff, if◌then◌else◌, Bool,
  not, ◌&&◌, ◌||◌,
}
use mattermost_mattermod.Model.{PullRequest, state_closed}
use mattermost_mattermod.World.{World, created_status}
use mattermost_mattermod.World.Github.{RepoStatus}
use mattermost_mattermod.World.Monad.{Server, returned, log}
use mattermost_mattermod.Base.Text.{◌+++◌}
use mattermost_mattermod.Server.BlockMerge.{
  is_block_pr_merge, is_block_pr_merge_in_labels, first_block_label, get_block_label_from_pr,
  set_block_status_for_pr,
}

pub is_block_pr_merge_in_labels-any :
    (s : Server) (labels : List String)
    → is_block_pr_merge_in_labels s labels
      ≡ any (λ label. mem label s.config.block_pr_merge_labels) labels
unfolding is_block_pr_merge_in_labels
is_block_pr_merge_in_labels-any s [] = refl
is_block_pr_merge_in_labels-any s (label ∷ labels) =
    ground (arith, is_block_pr_merge_in_labels-any s labels)

-- Nothing is in the empty list.
any-mem-nil : (labels : List String) → any (λ label. mem label []) labels ≡ true → ⊥
any-mem-nil [] h = cc
any-mem-nil (l ∷ labels) h = any-mem-nil labels h

-- A label of the pull request that is not the first block label is in the rest of them.
any-mem-cons :
    (b : String) (bs labels : List String)
    → any (λ label. mem label (b ∷ bs)) labels ≡ true
    → mem b labels ≡ false
    → any (λ label. mem label bs) labels ≡ true
any-mem-cons b bs [] h n = h
any-mem-cons b bs (l ∷ labels) h n =
    ground (arith, eq_iff b l, eq_iff l b, any-mem-cons b bs labels)

first_block_label-mem :
    (bs labels : List String)
    → any (λ label. mem label bs) labels ≡ true
    → (mem (first_block_label bs labels) bs ≡ true)
      × (mem (first_block_label bs labels) labels ≡ true)
unfolding first_block_label
first_block_label-mem [] labels h = absurd (any-mem-nil labels h)
first_block_label-mem (b ∷ bs) labels h =
    ground (arith, eq_iff b b, any-mem-cons b bs labels, first_block_label-mem bs labels)

-- The label that the description of a block names is configured to block and on the pull request,
-- whenever one is.
get_block_label_from_pr-mem :
    (s : Server) (labels : List String)
    → is_block_pr_merge_in_labels s labels ≡ true
    → (is_block_pr_merge s (get_block_label_from_pr s labels) ≡ true)
      × (mem (get_block_label_from_pr s labels) labels ≡ true)
unfolding is_block_pr_merge get_block_label_from_pr
get_block_label_from_pr-mem s labels h =
    first_block_label-mem s.config.block_pr_merge_labels labels
      (rw (← is_block_pr_merge_in_labels-any s labels) h)

-- The status of a merge that a label blocks, and of one that none does.
abbrev pub merge_status : Bool → String → RepoStatus
merge_status blocked label = record {
  state = if blocked then "pending" else "success";
  description = if blocked then "Merge blocked due " +++ label +++ " label" else "Merged allowed";
  target_url = "";
  context = "merge/blocked";
}

-- For a pull request that is not closed, setBlockStatusForPR sets one status on its head commit, and
-- does nothing else. If one of the pull request's labels is configured to block, the status is pending
-- and names a label that is configured to block and on the pull request. Else it is a success.
pub set_block_status_for_pr_lem :
    (s : Server) (pr : PullRequest) (w : World)
    → (pr.state == state_closed) ≡ false
    → let blocked = any (λ label. mem label s.config.block_pr_merge_labels) pr.labels in
      (label : String) × ((not blocked
          || (mem label s.config.block_pr_merge_labels && mem label pr.labels))
        ≡ true)
      × (set_block_status_for_pr s pr w ≡ (
          let event =
            created_status pr.repo_owner pr.repo_name pr.sha (merge_status blocked label) in
          (returned tt, log (event (s.outside.write w.trace event)) w)))
unfolding set_block_status_for_pr is_block_pr_merge
set_block_status_for_pr_lem s pr w not_closed = (
  get_block_label_from_pr s pr.labels,
  ground
      (arith, is_block_pr_merge_in_labels-any s pr.labels, get_block_label_from_pr-mem s pr.labels),
  ground (arith, is_block_pr_merge_in_labels-any s pr.labels),
)
