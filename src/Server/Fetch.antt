-- ===== src/Server/Fetch.antt =====
-- server/github.go: GetPullRequestFromGithub, GetUpdateChecks and GetIssueFromGithub, and
-- getPRFromIssueCommentEvent of server/pull_request_handler.go.
pub mod Stored
pub mod TooLong
pub mod Sound
use mattermost_mattermod.Base.{
  ℕ, String, Bool, true, false, ◌||◌, Option, none, some, List, [], ◌∷◌, ◌==◌, not, if◌then◌else◌,
  value_or, get_elem?, length, ltb,
}
use mattermost_mattermod.Base.Text.{◌+++◌, split}
use mattermost_mattermod.Model.{PullRequest, Issue}
use mattermost_mattermod.World.{got_combined_status, got_check_runs}
use mattermost_mattermod.World.Github.{Error, Result, ok, err, GhPull, GhIssue, Status, CheckRun}
use mattermost_mattermod.World.Config.{Repository, get_repository}
use mattermost_mattermod.World.Monad.{Server, M, ◌>>=◌, ◌>>◌, pure, ask, attempt, error, wrap}
use mattermost_mattermod.Store.PullRequests
use mattermost_mattermod.Server.Github.{labels_to_string_array, list_labels, get_state, get_pull}

abbrev pub pr_event_opened : String
pr_event_opened = "opened"

-- The literal that GetPullRequestFromGithub starts with, and the full name.
unfoldable pub pull_request_of : GhPull → PullRequest
pull_request_of pull = record {
  merged = some pull.merged;
  maintainer_can_modify = some pull.maintainer_can_modify;
  milestone_number = some pull.milestone_number;
  milestone_title = some pull.milestone_title;
  created_at = pull.created_at;
  repo_owner = pull.base_owner;
  repo_name = pull.base_name;
  full_name = pull.head_full_name;
  username = pull.login;
  ref = pull.head_ref;
  sha = pull.head_sha;
  state = get_state pull;
  build_status = "";
  build_conclusion = "";
  build_link = "";
  url = pull.url;
  merge_commit_sha = pull.merge_commit_sha;
  labels = [];
  number = pull.number;
}

-- The loop over the statuses: the first one of the context.
with_status : String → List Status → PullRequest → PullRequest
with_status context [] pr = pr
with_status context (status ∷ statuses) pr =
    if status.context == context
    then record pr { build_status = status.state; build_link = status.target_url }
    else with_status context statuses pr

-- The loop over the check runs: the first one of the name.
with_check_run : String → List CheckRun → PullRequest → PullRequest
with_check_run name [] pr = pr
with_check_run name (run ∷ runs) pr =
    if run.name == name
    then record pr {
      build_status = run.status;
      build_conclusion = run.conclusion;
      build_link = run.html_url;
    }
    else with_check_run name runs pr

-- The build of a repository that has a status context.
fetch_build : Server → String → PullRequest → M (Result PullRequest)
unfolding ◌>>=◌ attempt with_status with_check_run
fetch_build s context pr =
    attempt
      (ask (λ t. s.outside.combined_status t pr.repo_owner pr.repo_name pr.sha)
        (got_combined_status pr.repo_owner pr.repo_name pr.sha))
      λ combined.
        attempt
          (ask (λ t. s.outside.check_runs t pr.repo_owner pr.repo_name pr.sha)
            (got_check_runs pr.repo_owner pr.repo_name pr.sha))
          λ checks.
            pure (ok (with_check_run context checks (with_status context combined.statuses pr)))

-- The build, where the repository is configured and has a status context.
pub with_build : Server → PullRequest → M (Result PullRequest)
unfolding ◌>>=◌ fetch_build get_repository
with_build s pr = elim (get_repository s.config.repositories pr.repo_owner pr.repo_name) [
  | none ↦ pure (ok pr)
  | some repo ↦
      if not (repo.build_status_context == "")
      then fetch_build s repo.build_status_context pr
      else pure (ok pr)
]

-- The labels, unless the pull request was just opened.
pub with_labels : Server → String → PullRequest → M (Result PullRequest)
unfolding ◌>>=◌ attempt list_labels labels_to_string_array
with_labels s action pr =
    if not (action == pr_event_opened)
    then attempt (list_labels s pr.repo_owner pr.repo_name pr.number) (λ labels.
      labels_to_string_array labels >>= λ names. pure (ok (record pr { labels = names })))
    else pure (ok pr)

-- The last step of GetPullRequestFromGithub: the save, and the value.
store_pull_request : Server → PullRequest → M (Result PullRequest)
unfolding ◌>>=◌ attempt
store_pull_request s pr = attempt (PullRequests.save s pr) λ _. pure (ok pr)

-- The steps after the build.
label_and_store : Server → String → PullRequest → M (Result PullRequest)
unfolding ◌>>=◌ attempt with_labels store_pull_request
label_and_store s action built = attempt (with_labels s action built) (store_pull_request s)

-- GetPullRequestFromGithub
unfoldable pub get_pull_request_from_github : Server → GhPull → String → M (Result PullRequest)
unfolding ◌>>=◌ attempt with_build label_and_store
get_pull_request_from_github s pull action =
    attempt (with_build s (pull_request_of pull)) (label_and_store s action)

-- GetUpdateChecks
unfoldable pub get_update_checks : Server → String → String → ℕ → M (Result PullRequest)
unfolding ◌>>=◌
get_update_checks s owner name number =
    attempt (get_pull s owner name number) λ pull. get_pull_request_from_github s pull ""

-- An error with a message in front of it.
wrapped : {A : Type 0} → String → M (Result A) → M (Result A)
unfolding ◌>>=◌
wrapped msg m = do r ← m; elim r [ err e ↦ pure (err (wrap msg e)) | ok a ↦ pure (ok a) ]

-- getPRFromIssueCommentEvent
unfoldable pub get_pr_from_issue_comment_event :
    Server → String → String → ℕ → String → M (Result PullRequest)
unfolding ◌>>=◌ wrapped
get_pr_from_issue_comment_event s owner name number action =
    attempt
      (wrapped "could not get the latest PR information from github" (get_pull s owner name number))
      λ pull. wrapped "error updating the PR in the DB" (get_pull_request_from_github s pull action)

-- The owner and the name of an issue's repository, from its URL where they are missing:
-- https://github.com/{repoOwner}/{repoName}/pull/{number}
unfoldable pub issue_repository : GhIssue → Result (String × String)
unfolding split
issue_repository issue =
    if issue.repo_owner == "" || issue.repo_name == ""
    then (let parts = split issue.html_url 47 in
        if ltb (length parts) 5
        then err (
            error
              ("could not get repo owner or repo name from url: \"" +++ issue.html_url +++ "\""))
        else ok (value_or "" (get_elem? parts 3), value_or "" (get_elem? parts 4)))
    else ok (issue.repo_owner, issue.repo_name)

-- GetIssueFromGithub
unfoldable pub get_issue_from_github : Server → GhIssue → M (Result Issue)
unfolding ◌>>=◌ attempt issue_repository list_labels labels_to_string_array
get_issue_from_github s gh_issue = attempt (pure (issue_repository gh_issue)) λ repository.
    attempt (list_labels s repository.0 repository.1 gh_issue.number) λ labels. do
      names ← labels_to_string_array labels
      pure (
          ok (record {
            repo_owner = repository.0;
            repo_name = repository.1;
            username = gh_issue.login;
            state = gh_issue.state;
            labels = names;
            number = gh_issue.number;
          }))
