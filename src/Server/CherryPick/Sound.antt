-- ===== src/Server/CherryPick/Sound.antt =====
-- server/cherry_pick.go: what puts requests on the queue keeps the program sound.
use mattermost_mattermod.Base.{
  refl, ◌||◌, ◌==◌, String, true, false, not, none, some, arith, length, if◌then◌else◌, nat_eq, ltb,
}
use mattermost_mattermod.Base.Text.{split, from_index}
use mattermost_mattermod.Model.{PullRequest, get_merged, get_milestone_number, get_milestone_title}
use mattermost_mattermod.World.{World, CherryPickRequest}
use mattermost_mattermod.World.Monad.{Server, error}
use mattermost_mattermod.World.Monad.Keeps.{
  Keeps, Keeps-bind, Keeps-pure, Keeps-if, Keeps-when, Keeps-deref, Keeps-gets, Keeps-Result,
  Keeps-for_while,
}
use mattermost_mattermod.Server.Frame.{
  comment_on-Same, list_labels-Same, labels_to_string_array-Same,
}
use mattermost_mattermod.Server.Github.{comment_on, list_labels, labels_to_string_array}
use mattermost_mattermod.Server.Members.{is_org_member, is_in_bot_block_list}
use mattermost_mattermod.Server.Soundness.{Sound, Keeps-Same}
use mattermost_mattermod.Server.CherryPick.Queue.{try_send-queue}
use mattermost_mattermod.Server.CherryPick.{
  try_send, get_command, schedule, decide_cherry_pick, handle_cherry_pick, schedule_label,
  schedule_labels, check_if_need_cherry_pick, cherry_pick_scheduled_msg, too_many_cherry_pick_msg,
  msg_commenter_permission,
}

module _ (s : Server) where
  try_send-Sound : (r : CherryPickRequest) → Keeps (Sound s) (try_send r)
  unfolding try_send
  try_send-Sound r = record { at = go }
    where
      go : (w : World) → Sound s w → Sound s (try_send r w).1
      go w h = record {
        pull_requests = ground (arith, h.pull_requests);
        issues = ground (arith, h.issues);
        queue = try_send-queue r w h.queue;
        merges = ground (arith, h.merges);
      }

  get_command-Sound : (command : String) → Keeps (Sound s) (get_command command)
  unfolding get_command
  get_command-Sound command = Keeps-deref (from_index command "/cherry-pick")

  schedule-Sound : (body : String) (pr : PullRequest) → Keeps (Sound s) (schedule body pr)
  unfolding schedule
  schedule-Sound body pr = Keeps-bind _ _ (get_command-Sound body) (λ command.
      Keeps-bind _ _ (Keeps-gets _) (λ stopped.
        Keeps-if (not (get_merged pr)) _ _ (Keeps-pure ("", none)) (
          Keeps-if (ltb (length (split command 32)) 2) _ _ (Keeps-pure ("", none)) (
            Keeps-if stopped _ _ (Keeps-pure ("", some (error "server is closing"))) (
              Keeps-bind _ _ (try_send-Sound _) (λ sent. Keeps-pure (
                if sent
                then (cherry_pick_scheduled_msg, none)
                else (too_many_cherry_pick_msg, some (error "too many requests")))))))))

  decide_cherry_pick-Sound :
      (commenter body : String) (pr : PullRequest)
      → Keeps (Sound s) (decide_cherry_pick s commenter body pr)
  unfolding decide_cherry_pick
  decide_cherry_pick-Sound commenter body pr =
      Keeps-bind _ _ (Keeps-Same s (is_org_member commenter) (λ w. (refl, refl, refl, refl)))
        (λ member.
          Keeps-if (not member || is_in_bot_block_list s commenter) _ _
            (Keeps-pure (msg_commenter_permission, none)) (schedule-Sound body pr))

  pub handle_cherry_pick-Sound :
      (commenter body : String) (pr : PullRequest)
      → Keeps (Sound s) (handle_cherry_pick s commenter body pr)
  unfolding handle_cherry_pick
  handle_cherry_pick-Sound commenter body pr =
      Keeps-bind _ _ (decide_cherry_pick-Sound commenter body pr) (λ r.
        Keeps-bind _ _
          (Keeps-when (not (r.0 == "")) _
            (Keeps-Same s (comment_on s pr r.0) (comment_on-Same s pr r.0)))
          (λ _. Keeps-pure r.1))

  schedule_label-Sound :
      (pr : PullRequest) (label : String) → Keeps (Sound s) (schedule_label s pr label)
  unfolding schedule_label
  schedule_label-Sound pr label = Keeps-bind _ _ (Keeps-gets _) (λ stopped.
      Keeps-if (not (label == "CherryPick/Approved")) _ _ (Keeps-pure true) (
        Keeps-if stopped _ _ (Keeps-pure false) (
          Keeps-bind _ _ (try_send-Sound _) (λ sent.
            let msg = if sent then cherry_pick_scheduled_msg else too_many_cherry_pick_msg in
            Keeps-bind _ _ (Keeps-Same s (comment_on s pr msg) (comment_on-Same s pr msg))
              (λ _. Keeps-pure true)))))

  schedule_labels-Sound : (pr : PullRequest) → Keeps (Sound s) (schedule_labels s pr)
  unfolding schedule_labels
  schedule_labels-Sound pr =
      Keeps-bind _ _
        (Keeps-Same s (list_labels s pr.repo_owner pr.repo_name pr.number)
          (list_labels-Same s pr.repo_owner pr.repo_name pr.number))
        (λ r.
          Keeps-Result r _ _ (λ e. Keeps-pure tt)
            (λ labels.
              Keeps-bind _ _
                (Keeps-Same s (labels_to_string_array labels) (labels_to_string_array-Same labels))
                (λ names. Keeps-for_while names _ (schedule_label-Sound pr))))

  pub check_if_need_cherry_pick-Sound :
      (pr : PullRequest) → Keeps (Sound s) (check_if_need_cherry_pick s pr)
  unfolding check_if_need_cherry_pick
  check_if_need_cherry_pick-Sound pr = Keeps-if (not (get_merged pr)) _ _ (Keeps-pure tt) (
      Keeps-if (nat_eq (get_milestone_number pr) 0 || (get_milestone_title pr == "")) _ _
        (Keeps-pure tt) (schedule_labels-Sound pr))
