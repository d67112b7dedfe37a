-- ===== src/Server/AutoMerge.antt =====
-- server/auto_merge.go: the periodic task that merges what is ready.
pub mod Rest
pub mod Said
pub mod Readiness
pub mod Sound
use mattermost_mattermod.Base.{
  ℕ, String, Bool, true, false, not, ◌&&◌, ◌||◌, Option, none, some, List, [], ◌∷◌, ◌==◌,
  if◌then◌else◌, mem, value_or, is_nil,
}
use mattermost_mattermod.Base.Text.{◌+++◌}
use mattermost_mattermod.Model.{PullRequest, state_closed, mergeable_state_clean}
use mattermost_mattermod.World.{
  got_pull, got_combined_status, got_reviewers, merged_pull, counted, World,
}
use mattermost_mattermod.World.Github.{
  Error, Result, ok, err, GhPull, CombinedStatus, Reviewers, MergeResult,
}
use mattermost_mattermod.World.Monad.{
  Server, M, ◌>>=◌, ◌>>◌, pure, done, ask, error, for_each, timed,
}
use mattermost_mattermod.Store.PullRequests.{list_open}
use mattermost_mattermod.Server.Github.{comment_on, get_pull, get_state}
use mattermost_mattermod.Server.BlockMerge.{state_success}

-- hasAutoMerge
unfoldable pub has_auto_merge : Server → List String → Bool
has_auto_merge s labels = mem s.config.auto_pr_merge_label labels

-- The end of a round: the comments and the merge.
unfoldable pub merge_pr : Server → PullRequest → GhPull → M (Unit {0})
unfolding ◌>>=◌ comment_on
merge_pr s pr gh_pr = do
  comment_on s pr "Trying to auto merge this PR."
  merged ←
      ask (λ t. s.outside.merge t pr.repo_owner pr.repo_name pr.number gh_pr.head_sha "squash")
        (merged_pull pr.repo_owner pr.repo_name pr.number gh_pr.head_sha "squash")
  elim merged [
    | err e ↦ comment_on s pr ("Error while trying to automerge the PR\nErr " +++ e.text)
    | ok m ↦ comment_on s pr (m.message +++ "\nSHA: " +++ m.sha)
  ]

-- The last check of a round: no review is asked for and not given.
unfoldable pub check_reviewers : Server → PullRequest → GhPull → M (Unit {0})
unfolding ◌>>=◌
check_reviewers s pr gh_pr = do
  r ←
      ask (λ t. s.outside.reviewers t pr.repo_owner pr.repo_name pr.number)
        (got_reviewers pr.repo_owner pr.repo_name pr.number)
  elim r [
    | err e ↦ done
    | ok r ↦ if not (is_nil r.users) || not (is_nil r.teams) then done else merge_pr s pr gh_pr
  ]

-- The checks of the combined status of the head commit.
unfoldable pub check_status : Server → PullRequest → GhPull → M (Unit {0})
unfolding ◌>>=◌ check_reviewers
check_status s pr gh_pr = do
  r ←
      ask (λ t. s.outside.combined_status t pr.repo_owner pr.repo_name gh_pr.head_sha)
        (got_combined_status pr.repo_owner pr.repo_name gh_pr.head_sha)
  elim r [
    | err e ↦ done
    | ok status ↦
        if not (gh_pr.head_sha == status.sha)
        then done
        else if not (status.state == state_success)
        then done
        else check_reviewers s pr gh_pr
  ]

-- One round of the loop of AutoMergePR.
unfoldable pub auto_merge_one : Server → PullRequest → M (Unit {0})
unfolding ◌>>=◌ check_status has_auto_merge get_pull
auto_merge_one s pr = do
  let checked = do
    r ← get_pull s pr.repo_owner pr.repo_name pr.number
    elim r [
      | err e ↦ done
      | ok gh_pr ↦
          if get_state gh_pr == state_closed
          then done
          else if not (gh_pr.mergeable_state == mergeable_state_clean)
          then done
          else check_status s pr gh_pr
    ]
  if not (has_auto_merge s pr.labels) then done else checked

-- AutoMergePR
unfoldable pub auto_merge_pr : Server → M (Option Error)
unfolding ◌>>=◌ for_each auto_merge_one list_open timed
auto_merge_pr s = timed "auto_merger_pr" do
  prs ← list_open s
  elim prs [
    | err e ↦ pure (some (error ("error while listing open PRs " +++ e.text)))
    | ok prs ↦ for_each prs (auto_merge_one s) >> pure none
  ]
