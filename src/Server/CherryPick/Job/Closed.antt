-- ===== src/Server/CherryPick/Job/Closed.antt =====
-- server/cherry_pick.go: the work on a request keeps whatever is read off the tables, the queue and the
-- merges, since it changes none of them.
use mattermost_mattermod.Base.{◌==◌, refl, ℕ, String, Option, none, some, List, [], ◌∷◌, arith}
use mattermost_mattermod.Base.Text.{trim_space, ◌+++◌, itoa}
use mattermost_mattermod.Model.{PullRequest}
use mattermost_mattermod.World.{World, CherryPickRequest, set_milestone, added_assignees}
use mattermost_mattermod.World.Monad.{M, Server, error, write}
use mattermost_mattermod.World.Monad.Keeps.{
  Keeps, Keeps-bind, Keeps-pure, Keeps-if, Keeps-gets, Keeps-Result, Keeps-Option, Keeps-attempt,
}
use mattermost_mattermod.World.Frame.{Same}
use mattermost_mattermod.Server.Frame.{comment_on-Same}
use mattermost_mattermod.Server.Github.{comment_on, request_reviewers}
use mattermost_mattermod.Server.CherryPick.Job.{
  run_command, return_to_master, set_if_empty, clone_repo, get_assignee, update_cherry_pick_labels,
  finish_cherry_pick, run_cherry_pick, checkout, do_cherry_pick, work_off, new_pr_number_of,
}

run_command-Same :
    (s : Server) (dir : String) (args : List String) (w : World)
    → Same w (run_command s dir args w).1
unfolding run_command
run_command-Same s dir args w = (refl, refl, refl, refl)

return_to_master-Same :
    (s : Server) (dir : String) (w : World) → Same w (return_to_master s dir w).1
unfolding return_to_master
return_to_master-Same s dir w = (refl, refl, refl, refl)

set_if_empty-Same :
    (s : Server) (dir key value : String) (w : World) → Same w (set_if_empty s dir key value w).1
unfolding set_if_empty
set_if_empty-Same s dir key value w = ground arith

get_assignee-Same : (s : Server) (pr : PullRequest) (w : World) → Same w (get_assignee s pr w).1
unfolding get_assignee
get_assignee-Same s pr w = ground arith

update_cherry_pick_labels-Same :
    (s : Server) (n : ℕ) (pr : PullRequest) (w : World)
    → Same w (update_cherry_pick_labels s n pr w).1
unfolding update_cherry_pick_labels
update_cherry_pick_labels-Same s n pr w = ground arith

module _ (P : World → Type 0) (closed : (w v : World) → Same w v → P w → P v) (s : Server) where
  Keeps-closed : {A : Type 0} (m : M A) → ((w : World) → Same w (m w).1) → Keeps P m
  Keeps-closed m same = record { at = λ w h. closed w (m w).1 (same w) h }

  run_command-Closed : (dir : String) (args : List String) → Keeps P (run_command s dir args)
  run_command-Closed dir args = Keeps-closed (run_command s dir args) (run_command-Same s dir args)

  set_if_empty-Closed : (dir key value : String) → Keeps P (set_if_empty s dir key value)
  set_if_empty-Closed dir key value =
      Keeps-closed (set_if_empty s dir key value) (set_if_empty-Same s dir key value)

  clone_repo-Closed : (repo_name : String) → Keeps P (clone_repo s repo_name)
  unfolding clone_repo
  clone_repo-Closed repo_name = Keeps-attempt _ _ (run_command-Closed _ _) (λ _.
      Keeps-attempt _ _ (set_if_empty-Closed _ _ _) (λ _.
        Keeps-attempt _ _ (set_if_empty-Closed _ _ _)
          (λ _. Keeps-attempt _ _ (set_if_empty-Closed _ _ _) (λ _. run_command-Closed _ _))))

  finish_cherry_pick-Closed :
      (n : ℕ) (milestone : Option ℕ) (pr : PullRequest)
      → Keeps P (finish_cherry_pick s n milestone pr)
  unfolding finish_cherry_pick
  finish_cherry_pick-Closed n milestone pr =
      Keeps-bind _ _ (Keeps-closed (get_assignee s pr) (get_assignee-Same s pr)) (λ assignee.
        Keeps-bind _ _
          (Keeps-Option milestone _ _ (Keeps-pure tt) (λ m.
            Keeps-bind _ _
              (Keeps-closed (write s (set_milestone pr.repo_owner pr.repo_name n m))
                (λ w. (refl, refl, refl, refl)))
              (λ _. Keeps-pure tt)))
          (λ _.
            Keeps-bind _ _
              (Keeps-closed (update_cherry_pick_labels s n pr)
                (update_cherry_pick_labels-Same s n pr))
              (λ _.
                Keeps-bind _ _
                  (Keeps-closed (request_reviewers s pr n (assignee ∷ []) [])
                    (λ w. (refl, refl, refl, refl)))
                  (λ _.
                    Keeps-bind _ _
                      (Keeps-closed
                        (write s (added_assignees pr.repo_owner pr.repo_name n (assignee ∷ [])))
                        (λ w. (refl, refl, refl, refl)))
                      (λ _. Keeps-pure tt)))))

  return_to_master-Closed : (dir : String) → Keeps P (return_to_master s dir)
  return_to_master-Closed dir = Keeps-closed (return_to_master s dir) (return_to_master-Same s dir)

  run_cherry_pick-Closed :
      (dir version : String) (milestone : Option ℕ) (pr : PullRequest)
      → Keeps P (run_cherry_pick s dir version milestone pr)
  unfolding run_cherry_pick
  run_cherry_pick-Closed dir version milestone pr = Keeps-bind _ _ (run_command-Closed dir _) (λ r.
      Keeps-Result r _ _
        (λ e. Keeps-bind _ _ (return_to_master-Closed dir) (λ _. Keeps-pure (e.text, some e)))
        (λ out.
          Keeps-bind _ _ (finish_cherry_pick-Closed (new_pr_number_of s out) milestone pr)
            (λ _. Keeps-bind _ _ (return_to_master-Closed dir) (λ _. Keeps-pure ("", none)))))

  checkout-Closed : (dir name : String) → Keeps P (checkout s dir name)
  unfolding checkout
  checkout-Closed dir name = Keeps-bind _ _ (Keeps-gets _) (λ exists.
      Keeps-if exists _ _ (Keeps-pure none) (
        Keeps-bind _ _ (clone_repo-Closed name) (λ r.
          Keeps-Result r _ _
            (λ e. Keeps-pure (
              some (
                error (
                  "error while cloning repo: " +++ s.config.org +++ "/" +++ name +++ ", "
                  +++ e.text))))
            (λ _. Keeps-pure none))))

  do_cherry_pick-Closed :
      (version : String) (milestone : Option ℕ) (pr : PullRequest)
      → Keeps P (do_cherry_pick s version milestone pr)
  unfolding do_cherry_pick
  do_cherry_pick-Closed version milestone pr =
      let dir = s.config.repo_folder +++ "/" +++ pr.repo_name in
      Keeps-if (pr.merge_commit_sha == "") _ _
        (Keeps-pure ("", some (error ("can't get merge commit SHA for PR: " +++ itoa pr.number))))
        (Keeps-if (s.config.repo_folder == "") _ _
          (Keeps-pure (
            "",
            some (
                error
                  "path to folder containing local checkout of repositories is not set in the config"),
          ))
          (Keeps-bind _ _ (checkout-Closed dir pr.repo_name) (λ e.
            Keeps-Option e _ _
              (Keeps-if (s.config.scripts_folder == "") _ _
                (Keeps-pure (
                  "",
                  some (
                      error
                        "path to folder containing the cherry-pick.sh script is not set in the config"),
                ))
                (run_cherry_pick-Closed dir version milestone pr))
              (λ e. Keeps-pure ("", some e)))))

  pub work_off-Closed : (job : CherryPickRequest) → Keeps P (work_off s job)
  unfolding work_off
  work_off-Closed job =
      Keeps-bind _ _ (do_cherry_pick-Closed (trim_space job.version) job.milestone job.pr) (λ r.
        Keeps-Option r.1 _ _ (Keeps-pure tt) (λ e.
          let msg =
            "Error trying doing the automated Cherry picking. Please do this manually\n\n```\n"
            +++ r.0 +++ "\n```\n" in
          Keeps-closed (comment_on s job.pr msg) (comment_on-Same s job.pr msg)))
