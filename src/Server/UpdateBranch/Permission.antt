-- ===== src/Server/UpdateBranch/Permission.antt =====
-- server/update_branch.go: when a branch is updated.
use mattermost_mattermod.Base.{
  Option, some, if◌then◌else◌, String, Bool, ◌≡◌, ◌||◌, ◌&&◌, not, ◌==◌, arith, mem, value_or,
  Option-cases, inl, inr, get_elem?, true, ℕ, none, List, ◌∷◌, nat_eq, is_some,
}
use mattermost_mattermod.Base.Text.{split, contains}
use mattermost_mattermod.Model.{PullRequest, get_maintainer_can_modify}
use mattermost_mattermod.World.{World, Event, created_comment, updated_branch}
use mattermost_mattermod.World.Monad.{Server, Outcome, returned}
use mattermost_mattermod.World.Github.{Error}
use mattermost_mattermod.Server.UpdateBranch.{handle_update_branch, request_update, fail_update}
use mattermost_mattermod.Server.Github.{comment_on}

-- The commenter may ask for it: the author or a member, and no blocked bot.
abbrev pub may_ask : Server → World → String → PullRequest → Bool
may_ask s w commenter pr =
    ((commenter == pr.username) || mem commenter w.org_members)
    && not (mem commenter s.config.block_list_bots)

-- The program may do it: the fork is the organization's, or lets maintainers modify it.
abbrev pub may_update : Server → PullRequest → Bool
may_update s pr =
    (value_or "" (get_elem? (split pr.full_name 47) 0) == s.config.org)
    || get_maintainer_can_modify pr

-- GitHub takes the update: with no other HTTP status than 202, and with no error but the one that says
-- that the update runs later.
abbrev takes_error : Option Error → Bool
takes_error none = true
takes_error (some e) = contains e.text "job scheduled on GitHub side; try again later"

abbrev takes : Option ℕ × Option Error → Bool
takes (none, e) = takes_error e
takes (some status, e) = nat_eq status 202 && takes_error e

-- What GitHub answers to the request for the update of the head commit.
abbrev pub answer : Server → World → PullRequest → Option ℕ × Option Error
answer s w pr = s.outside.update w.trace pr.repo_owner pr.repo_name pr.number pr.sha

-- What is wrong with the command, first of all the commenter, then the fork, then GitHub's answer.
abbrev pub complaint : Server → World → String → PullRequest → Option String
complaint s w commenter pr =
    if not (may_ask s w commenter pr)
    then some
        "Looks like you don't have permissions to trigger this command.\n Only available for the PR submitter and org members"
    else if not (may_update s pr)
    then some
        "We don't have permissions to update this PR, please contact the submitter to apply the update."
    else if takes (answer s w pr)
    then none
    else some "Error trying to update the PR.\nPlease do it manually."

-- The history after the request for the update, if there is one, and after the comment, if there is one.
abbrev pub requested : Server → World → String → PullRequest → List Event
requested s w commenter pr =
    if may_ask s w commenter pr && may_update s pr
    then updated_branch pr.repo_owner pr.repo_name pr.number pr.sha (answer s w pr).0
        (answer s w pr).1
      ∷ w.trace
    else w.trace

abbrev pub commented : Server → PullRequest → Option String → List Event → List Event
commented s pr none t = t
commented s pr (some text) t =
    let event = created_comment pr.repo_owner pr.repo_name pr.number text in
    event (s.outside.write t event) ∷ t

-- The handler returned, with an error or without one.
abbrev pub returns_error : Outcome (Option Error) → Option Bool
returns_error (returned e) = some (is_some e)
returns_error o = none

request_update_lem :
    (s : Server) (pr : PullRequest) (w : World)
    → let wrong : Option String =
        if takes (answer s w pr)
        then none
        else some "Error trying to update the PR.\nPlease do it manually." in
      let event =
        updated_branch pr.repo_owner pr.repo_name pr.number pr.sha
          (answer s w pr).0
          (answer s w pr).1 in
      let after = request_update s pr w in
      (after.1 ≡ record w { trace = commented s pr wrong (event ∷ w.trace) })
      × (returns_error after.0 ≡ some (is_some wrong))
unfolding request_update fail_update comment_on
request_update_lem s pr w = elim (Option-cases (answer s w pr).0) [
  | inl p ↦ elim (Option-cases (answer s w pr).1) [
    | inl q ↦ ground (arith, p, q)
    | inr (e, q) ↦ ground (arith, p, q)
  ]
  | inr (status, p) ↦ elim (Option-cases (answer s w pr).1) [
    | inl q ↦ ground (arith, p, q)
    | inr (e, q) ↦ ground (arith, p, q)
  ]
]

-- GitHub is asked once to update the branch at the stored head commit, if the commenter is the author or
-- a member and no blocked bot, and the fork is the organization's or lets maintainers modify it; else it
-- is not asked. If the one or the other does not hold, or GitHub does not take the update, the message
-- for the first of these is posted, and an error returned. Else no comment is posted and no error is
-- returned. Nothing else is done.
pub handle_update_branch_lem :
    (s : Server) (commenter : String) (pr : PullRequest) (w : World)
    → let wrong = complaint s w commenter pr in
      let after = handle_update_branch s commenter pr w in
      (after.1 ≡ record w { trace = commented s pr wrong (requested s w commenter pr) })
      × (returns_error after.0 ≡ some (is_some wrong))
unfolding handle_update_branch fail_update comment_on
handle_update_branch_lem s commenter pr w = ground (arith, request_update_lem s pr w)
