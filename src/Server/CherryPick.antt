-- ===== src/Server/CherryPick.antt =====
-- server/cherry_pick.go: the queue of cherry picks. The channel `cherryPickRequests` is the list
-- `queue`, oldest first, of at most 20; `stopped` says that both channels are closed.
pub mod Job
pub mod Queue
pub mod Assignee
pub mod Sound
use mattermost_mattermod.Base.{
  ℕ, String, Bool, true, false, ◌||◌, Option, none, some, List, [], ◌∷◌, ◌++◌, ◌==◌, not,
  if◌then◌else◌, nat_eq, ltb, length, get_elem?, value_or,
}
use mattermost_mattermod.Base.Text.{◌+++◌, split, from_index, trim_space, trim, trim_suffix}
use mattermost_mattermod.Model.{PullRequest, get_merged, get_milestone_number, get_milestone_title}
use mattermost_mattermod.World.{World, CherryPickRequest}
use mattermost_mattermod.World.Github.{Error, Result, ok, err}
use mattermost_mattermod.World.Monad.{
  Server, M, ◌>>=◌, ◌>>◌, pure, done, deref, gets, modify, when, error, for_while,
}
use mattermost_mattermod.Server.Github.{comment_on, list_labels, labels_to_string_array}
use mattermost_mattermod.Server.Members.{is_org_member, is_in_bot_block_list}
use Prim.Native.Char.{Char, code}

abbrev pub cherry_pick_scheduled_msg : String
cherry_pick_scheduled_msg = "Cherry pick is scheduled."

abbrev pub too_many_cherry_pick_msg : String
too_many_cherry_pick_msg =
    "There are too many cherry picking requests. Please do this manually or try again later."

abbrev pub msg_commenter_permission : String
msg_commenter_permission =
    "Looks like you don't have permissions to trigger this command.\n Only available for the PR submitter and org members"

-- make(chan *cherryPickRequest, 20)
abbrev pub queue_capacity : ℕ
queue_capacity = 20

-- `select { case s.cherryPickRequests <- request: true; default: false }`
unfoldable pub try_send : CherryPickRequest → M Bool
unfolding ◌>>=◌
try_send request w =
    if ltb (length w.queue) queue_capacity
    then (pure true (record w { queue = w.queue ++ request ∷ [] }))
    else pure false w

-- getCommand: it panics where the text has no command.
unfoldable pub get_command : String → M String
unfolding ◌>>=◌ from_index
get_command command = deref (from_index command "/cherry-pick")

-- The part of handleCherryPick for a commenter who may: the message to post, and the error.
schedule : String → PullRequest → M (String × Option Error)
unfolding ◌>>=◌ get_command try_send get_merged
schedule body pr = do
  command ← get_command body
  let args = split command 32
  stopped ← gets (λ w. w.stopped)
  let send = do
    sent ← try_send (record {
      pr = pr;
      milestone = none;
      version = trim_space (value_or "" (get_elem? args 1));
    })
    pure (
        if sent
        then (cherry_pick_scheduled_msg, none)
        else (too_many_cherry_pick_msg, some (error "too many requests")))
  if not (get_merged pr)
      then pure ("", none)
      else if ltb (length args) 2
      then pure ("", none)
      else if stopped
      then pure ("", some (error "server is closing"))
      else send

-- The message of handleCherryPick and its error.
decide_cherry_pick : Server → String → String → PullRequest → M (String × Option Error)
unfolding ◌>>=◌ schedule is_org_member is_in_bot_block_list
decide_cherry_pick s commenter body pr = do
  member ← is_org_member commenter
  if not member || is_in_bot_block_list s commenter
      then pure (msg_commenter_permission, none)
      else schedule body pr

-- handleCherryPick: the message is posted by a deferred call.
unfoldable pub handle_cherry_pick : Server → String → String → PullRequest → M (Option Error)
unfolding ◌>>=◌ decide_cherry_pick comment_on
handle_cherry_pick s commenter body pr = do
  r ← decide_cherry_pick s commenter body pr
  when (not (r.0 == "")) (comment_on s pr r.0)
  pure r.1

is_v : Char → Bool
is_v c = nat_eq (code c) b'v'

-- getMilestone: the release branch of a milestone's title.
unfoldable pub get_milestone : String → String
unfolding trim_space trim trim_suffix is_v
get_milestone title =
    let milestone = trim_suffix (trim is_v (trim_space title)) ".0" in
    if not (title == "cloud") then "release-" +++ milestone else milestone

-- One round of the loop of checkIfNeedCherryPick: false where it returns.
schedule_label : Server → PullRequest → String → M Bool
unfolding ◌>>=◌ try_send get_milestone comment_on get_milestone_number get_milestone_title
schedule_label s pr label = do
  stopped ← gets (λ w. w.stopped)
  let send = do
    sent ← try_send (record {
      pr = pr;
      milestone = some (get_milestone_number pr);
      version = trim_space (get_milestone (get_milestone_title pr));
    })
    comment_on s pr (if sent then cherry_pick_scheduled_msg else too_many_cherry_pick_msg)
    pure true
  if not (label == "CherryPick/Approved") then pure true else if stopped then pure false else send

-- The part of checkIfNeedCherryPick for a merged pull request with a milestone.
schedule_labels : Server → PullRequest → M (Unit {0})
unfolding ◌>>=◌ list_labels labels_to_string_array for_while schedule_label
schedule_labels s pr = do
  r ← list_labels s pr.repo_owner pr.repo_name pr.number
  elim r [
    | err e ↦ done
    | ok labels ↦ do names ← labels_to_string_array labels; for_while names (schedule_label s pr)
  ]

-- checkIfNeedCherryPick
unfoldable pub check_if_need_cherry_pick : Server → PullRequest → M (Unit {0})
unfolding ◌>>=◌ schedule_labels get_merged get_milestone_number get_milestone_title
check_if_need_cherry_pick s pr =
    if not (get_merged pr)
    then done
    else if nat_eq (get_milestone_number pr) 0 || (get_milestone_title pr == "")
    then done
    else schedule_labels s pr
