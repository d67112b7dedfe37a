-- ===== src/Server/AutoAssign/Team.antt =====
-- server/autoassign.go: when the team is asked for a review.
use mattermost_mattermod.Base.{
  String, Bool, false, ◌≡◌, ◌&&◌, ◌||◌, List, ◌==◌, arith, any, mem, nat_eq, eq_iff,
}
use mattermost_mattermod.Model.{PullRequest}
use mattermost_mattermod.World.{World, Event, requested_reviewers}
use mattermost_mattermod.World.Github.{ok, Team}
use mattermost_mattermod.World.Monad.{Server}
use mattermost_mattermod.Server.Github.{comment_on, send_github_comment, request_reviewers}
use mattermost_mattermod.Server.AutoAssign.{assign, handle_auto_assign, auto_assigner_post_error}

-- The team was asked to review the pull request.
abbrev pub asks_team : PullRequest → String → Event → Bool
asks_team pr team (requested_reviewers owner name number users teams e) =
    (owner == pr.repo_owner) && (name == pr.repo_name) && nat_eq number pr.number && mem team teams
asks_team pr team e = false

-- Where GitHub gives the teams of the repository, handleAutoAssign asks the configured team for a
-- review exactly if it is among them.
handle_auto_assign_lem :
    (s : Server) (url : String) (pr : PullRequest) (teams : List Team) (w : World)
    → s.outside.teams w.trace pr.repo_owner pr.repo_name ≡ ok teams
    → any (asks_team pr s.config.auto_assigner_team) (handle_auto_assign s url pr w).1.trace ≡ (
        any (λ team. nat_eq team.id s.config.auto_assigner_team_id) teams
        || any (asks_team pr s.config.auto_assigner_team) w.trace)
unfolding handle_auto_assign assign auto_assigner_post_error comment_on send_github_comment
    request_reviewers
handle_auto_assign_lem s url pr teams w answer = ground (
  arith,
  eq_iff pr.repo_owner pr.repo_owner,
  eq_iff pr.repo_name pr.repo_name,
  eq_iff s.config.auto_assigner_team s.config.auto_assigner_team,
)
