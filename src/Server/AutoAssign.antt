-- ===== src/Server/AutoAssign.antt =====
-- server/autoassign.go: the command /autoassign.
pub mod Team
use mattermost_mattermod.Base.{
  String, Option, none, some, [], ◌∷◌, not, if◌then◌else◌, nat_eq, any, is_some,
}
use mattermost_mattermod.Base.Text.{◌+++◌}
use mattermost_mattermod.Model.{PullRequest}
use mattermost_mattermod.World.{got_teams}
use mattermost_mattermod.World.Github.{Error, ok, err}
use mattermost_mattermod.World.Monad.{Server, M, ◌>>=◌, ◌>>◌, pure, ask, when}
use mattermost_mattermod.Server.Github.{comment_on, send_github_comment, request_reviewers}

abbrev in_response : String → String → String
in_response url msg = "In response to [this](" +++ url +++ ")\n\n " +++ msg

-- autoAssignerPostError
unfoldable pub auto_assigner_post_error : Server → PullRequest → String → M (Unit {0})
unfolding ◌>>=◌ comment_on
auto_assigner_post_error s pr url =
    comment_on s pr (in_response url "I'm not able to request Pull Panda to add reviewers")

-- The body of handleAutoAssign: what it returns, and the variable `err` that its deferred call reads,
-- which the error of a comment goes into too.
assign : Server → String → PullRequest → M (Option Error × Option Error)
unfolding ◌>>=◌ send_github_comment request_reviewers
assign s url pr = do
  let say = λ (msg : String). do
    e ← send_github_comment s pr.repo_owner pr.repo_name pr.number (in_response url msg)
    pure {A = Option Error × Option Error} (none, e)
  let request = do
    e ← request_reviewers s pr pr.number [] (s.config.auto_assigner_team ∷ [])
    elim e as (λ e. M (Option Error × Option Error)) [
      | some e ↦ pure (some e, some e)
      | none ↦ say "I'm requesting the Pull Panda autoassigner to add reviewers to this PR."
    ]
  r ← ask (λ t. s.outside.teams t pr.repo_owner pr.repo_name) (got_teams pr.repo_owner pr.repo_name)
  elim r as (λ r. M (Option Error × Option Error)) [
    | err e ↦ pure (some e, some e)
    | ok teams ↦
        if not (any (λ team. nat_eq team.id s.config.auto_assigner_team_id) teams)
        then say
            "The auto assigner is not configured for this repository. Please talk with a Mattermost Github admin. thanks!"
        else request
  ]

-- handleAutoAssign
unfoldable pub handle_auto_assign : Server → String → PullRequest → M (Option Error)
unfolding ◌>>=◌ assign auto_assigner_post_error
handle_auto_assign s url pr = do
  r ← assign s url pr
  when (is_some r.1) (auto_assigner_post_error s pr url)
  pure r.0
