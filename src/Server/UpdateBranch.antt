-- ===== src/Server/UpdateBranch.antt =====
-- server/update_branch.go: the command /update-branch.
pub mod Permission
use mattermost_mattermod.Base.{
  ℕ, String, Bool, true, false, ◌||◌, ◌&&◌, Option, none, some, List, [], ◌∷◌, ◌==◌, not,
  if◌then◌else◌, nat_eq, value_or, get_elem?,
}
use mattermost_mattermod.Base.Text.{◌+++◌, split, contains}
use mattermost_mattermod.Model.{PullRequest, get_maintainer_can_modify}
use mattermost_mattermod.World.{updated_branch}
use mattermost_mattermod.World.Github.{Error}
use mattermost_mattermod.World.Monad.{Server, M, ◌>>=◌, ◌>>◌, pure, done, ask, error}
use mattermost_mattermod.Server.Github.{comment_on}
use mattermost_mattermod.Server.Members.{is_org_member, is_in_bot_block_list}
use mattermost_mattermod.Server.CherryPick.{msg_commenter_permission}

abbrev pub msg_organization_permission : String
msg_organization_permission =
    "We don't have permissions to update this PR, please contact the submitter to apply the update."

abbrev pub msg_update_pull_request : String
msg_update_pull_request = "Error trying to update the PR.\nPlease do it manually."

-- The sources of an updateError: the messages above, in their order.
pub data UpdateError : Type 0 where
  commenter_permission organization_permission update_pull_request : UpdateError

abbrev pub source : UpdateError → String
source commenter_permission = msg_commenter_permission
source organization_permission = msg_organization_permission
source update_pull_request = msg_update_pull_request

-- updateError.Error
abbrev pub error_text : UpdateError → String
error_text commenter_permission = "commenter does not have permissions"
error_text organization_permission = "we don't have permissions"
error_text update_pull_request = "could not update pull request"

-- The deferred comment, and the error that is returned.
fail_update : Server → PullRequest → UpdateError → String → M (Option Error)
unfolding ◌>>=◌ comment_on
fail_update s pr e text = comment_on s pr (source e) >> pure (some (error text))

-- The update itself: an HTTP status other than 202 is looked at first.
pub request_update : Server → PullRequest → M (Option Error)
unfolding ◌>>=◌ fail_update contains
request_update s pr = do
  r ←
      ask (λ t. s.outside.update t pr.repo_owner pr.repo_name pr.number pr.sha)
        (λ r. updated_branch pr.repo_owner pr.repo_name pr.number pr.sha r.0 r.1)
  let by_error = elim r.1 as (λ o. M (Option Error)) [
    | none ↦ pure none
    | some e ↦
        if not (contains e.text "job scheduled on GitHub side; try again later")
        then fail_update s pr update_pull_request
            (error_text update_pull_request +++ ": " +++ e.text)
        else pure none
  ]
  elim r.0 [
    | none ↦ by_error
    | some status ↦
        if not (nat_eq status 202)
        then fail_update s pr update_pull_request (error_text update_pull_request)
        else by_error
  ]

-- handleUpdateBranch
unfoldable pub handle_update_branch : Server → String → PullRequest → M (Option Error)
unfolding ◌>>=◌ fail_update request_update is_org_member is_in_bot_block_list split
    get_maintainer_can_modify
handle_update_branch s commenter pr = do
  member ← is_org_member commenter
  let owner = value_or "" (get_elem? (split pr.full_name 47) 0)
  if (not (commenter == pr.username) && not member) || is_in_bot_block_list s commenter
      then fail_update s pr commenter_permission (error_text commenter_permission)
      else if not (owner == s.config.org) && not (get_maintainer_can_modify pr)
      then fail_update s pr organization_permission (error_text organization_permission)
      else request_update s pr
