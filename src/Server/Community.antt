-- ===== src/Server/Community.antt =====
-- server/community.go: what a community contribution gets when it is opened.
pub mod Greeting
use mattermost_mattermod.Base.{
  String, Bool, true, false, ◌||◌, Option, none, some, List, [], ◌∷◌, ◌++◌, ◌==◌, not,
  if◌then◌else◌, mem, nat_eq,
}
use mattermost_mattermod.Base.Text.{◌+++◌, itoa}
use mattermost_mattermod.Model.{PullRequest, state_closed}
use mattermost_mattermod.World.Github.{Error, Result, ok, err}
use mattermost_mattermod.World.Config.{Repository}
use mattermost_mattermod.World.Monad.{Server, M, ◌>>=◌, ◌>>◌, pure, done, wrap, when}
use mattermost_mattermod.Server.Github.{add_labels, request_reviewers, send_github_comment}
use mattermost_mattermod.Server.Members.{is_org_member, is_bot_user_from_cla_exclusions_list}

abbrev pub contributor_label : String
contributor_label = "Contributor"

abbrev option_wrap : String → Option Error → Option Error
option_wrap msg none = none
option_wrap msg (some e) = some (wrap msg e)

-- addHacktoberfestLabel
unfoldable pub add_hacktoberfest_label : Server → PullRequest → M (Unit {0})
unfolding ◌>>=◌ is_org_member add_labels
add_hacktoberfest_label s pr = do
  member ← is_org_member pr.username
  when (not (pr.state == state_closed || not (nat_eq pr.created_at.month 10) || member))
      (add_labels s pr ("Hacktoberfest" ∷ []) >>= λ _. done)

-- postPRWelcomeMessage
unfoldable pub post_pr_welcome_message : Server → PullRequest → Bool → M (Option Error)
unfolding ◌>>=◌ is_org_member send_github_comment
post_pr_welcome_message s pr cla_comment_needed = do
  member ← is_org_member pr.username
  let send = λ (text : String). do
    e ← send_github_comment s pr.repo_owner pr.repo_name pr.number text
    pure (option_wrap "failed to send welcome message" e)
  let welcome =
      elim (s.outside.parse_template s.config.pr_welcome_message) as (λ o. M (Option Error)) [
        | some e ↦ pure (some (wrap "failed to render welcome message template" e))
        | none ↦
            elim (s.outside.execute_template s.config.pr_welcome_message cla_comment_needed
                ("@" +++ pr.username))
              as (λ r. M (Option Error)) [
                | err e ↦ pure (some (wrap "could not execute welcome message template" e))
                | ok text ↦ send text
              ]
      ]
  if member then pure none else welcome

-- assignGreeter
unfoldable pub assign_greeter : Server → PullRequest → Repository → M (Option Error)
unfolding ◌>>=◌ is_org_member request_reviewers
assign_greeter s pr repo = do
  member ← is_org_member pr.username
  let request = do
    e ← request_reviewers s pr pr.number [] (repo.greeting_team ∷ [])
    pure (option_wrap ("couldn't assign the greeting team " +++ repo.greeting_team) e)
  if member then pure none else if repo.greeting_team == "" then pure none else request

-- The labels of assignGreetingLabels: the configured ones, and the contributor label in any case.
unfoldable pub greeting_labels : Repository → List String
greeting_labels repo =
    if mem contributor_label repo.greeting_labels
    then repo.greeting_labels
    else repo.greeting_labels ++ contributor_label ∷ []

-- assignGreetingLabels
unfoldable pub assign_greeting_labels : Server → PullRequest → Repository → M (Option Error)
unfolding ◌>>=◌ is_org_member is_bot_user_from_cla_exclusions_list greeting_labels add_labels
assign_greeting_labels s pr repo = do
  member ← is_org_member pr.username
  let assign = do
    e ← add_labels s pr (greeting_labels repo)
    pure (
        option_wrap
          ("couldn't apply greeting labels to " +++ pr.repo_name +++ " #" +++ itoa pr.number) e)
  if member || is_bot_user_from_cla_exclusions_list s pr.username then pure none else assign
