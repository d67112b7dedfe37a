-- ===== src/Server/CherryPick/Queue.antt =====
-- server/cherry_pick.go: the queue never holds more than 20 requests, and who may add to it.
use mattermost_mattermod.Base.{
  String, true, ◌≡◌, ◌≤◌, ◌||◌, none, [], ◌∷◌, arith, length, length-append, not, mem, Option-cases,
  inl, inr, value_or, get_elem?,
}
use mattermost_mattermod.Base.Text.{from_index, trim_space, split}
use mattermost_mattermod.Base.Text.Search.{from_index-contains, contains-trim_space}
use mattermost_mattermod.Model.{PullRequest, get_merged}
use mattermost_mattermod.World.{World, CherryPickRequest}
use mattermost_mattermod.World.Monad.{Server, returned, Outcome-cases}
use mattermost_mattermod.Server.Github.{comment_on}
use mattermost_mattermod.Server.IssueCommentEvent.{IssueCommentEvent, has_command}
use mattermost_mattermod.Server.CherryPick.{
  try_send, get_command, schedule, decide_cherry_pick, handle_cherry_pick, queue_capacity,
  msg_commenter_permission,
}

pub try_send-queue :
    (r : CherryPickRequest) (w : World)
    → length w.queue ≤ queue_capacity
    → length (try_send r w).1.queue ≤ queue_capacity
unfolding try_send
try_send-queue r w h = ground (arith, length-append w.queue (r ∷ []))

schedule-queue :
    (body : String) (pr : PullRequest) (w : World)
    → length w.queue ≤ queue_capacity
    → length (schedule body pr w).1.queue ≤ queue_capacity
unfolding schedule get_command
schedule-queue body pr w h =
    let request : String → CherryPickRequest = λ command. record {
      pr = pr;
      milestone = none;
      version = trim_space (value_or "" (get_elem? (split command 32) 1));
    } in
    elim (Option-cases (from_index body "/cherry-pick")) [
      | inl e ↦ ground arith
      | inr (command, e) ↦ ground (arith, try_send-queue (request command) w)
    ]

decide_cherry_pick-queue :
    (s : Server) (commenter body : String) (pr : PullRequest) (w : World)
    → length w.queue ≤ queue_capacity
    → length (decide_cherry_pick s commenter body pr w).1.queue ≤ queue_capacity
unfolding decide_cherry_pick
decide_cherry_pick-queue s commenter body pr w h = ground (arith, schedule-queue body pr w)

comment_on-queue :
    (s : Server) (pr : PullRequest) (msg : String) (w : World)
    → (comment_on s pr msg w).1.queue ≡ w.queue
unfolding comment_on
comment_on-queue s pr msg w = ground arith

-- A comment never makes the queue longer than the 20 requests that the channel holds.
handle_cherry_pick-queue :
    (s : Server) (commenter body : String) (pr : PullRequest) (w : World)
    → length w.queue ≤ queue_capacity
    → length (handle_cherry_pick s commenter body pr w).1.queue ≤ queue_capacity
unfolding handle_cherry_pick
handle_cherry_pick-queue s commenter body pr w h =
    let d = decide_cherry_pick-queue s commenter body pr w h in
    elim (Outcome-cases (decide_cherry_pick s commenter body pr w).0) [
      | inl (r, e) ↦
          ground (arith, comment_on-queue s pr r.0 (decide_cherry_pick s commenter body pr w).1)
      | inr (inl e) ↦ ground arith
      | inr (inr e) ↦ ground arith
    ]

-- getCommand does not panic on a comment that HasCherryPick has found the command in, although that
-- looks at the trimmed text.
get_command_returns :
    (e : IssueCommentEvent) (w : World)
    → has_command e "/cherry-pick" ≡ true
    → (command : String) × (get_command e.comment.body w ≡ (returned command, w))
unfolding has_command get_command
get_command_returns e w h =
    let c = contains-trim_space e.comment.body "/cherry-pick" h in
    elim (Option-cases (from_index e.comment.body "/cherry-pick")) [
      | inl q ↦ absurd (ground (arith, from_index-contains e.comment.body "/cherry-pick"))
      | inr (t, q) ↦ (t, ground arith)
    ]

-- A comment changes the queue only if its author is a member of the organization and no blocked bot,
-- the pull request is merged, and the server is not stopping.
pub handle_cherry_pick_guard :
    (s : Server) (commenter body : String) (pr : PullRequest) (w : World)
    → (not (mem commenter w.org_members)
        || mem commenter s.config.block_list_bots
        || not (get_merged pr)
        || w.stopped)
      ≡ true
    → (handle_cherry_pick s commenter body pr w).1.queue ≡ w.queue
unfolding handle_cherry_pick decide_cherry_pick schedule get_command
handle_cherry_pick_guard s commenter body pr w h =
    elim (Option-cases (from_index body "/cherry-pick")) [
      | inl e ↦ ground (arith, comment_on-queue s pr msg_commenter_permission w)
      | inr (command, e) ↦ ground (arith, comment_on-queue s pr msg_commenter_permission w)
    ]
