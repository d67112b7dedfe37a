-- ===== src/Server/CherryPick/Job.antt =====
-- server/cherry_pick.go: the goroutine that works the queue off. Commands run outside: an event
-- `executed` has the directory, the command line and the output, or the error with the output as its
-- text.
pub mod Closed
pub mod Sound
pub mod Crash
pub mod Order
use mattermost_mattermod.Base.{
  ℕ, zero, suc, String, Bool, true, ◌-◌, Option, none, some, List, [], ◌∷◌, ◌==◌, if◌then◌else◌,
  length, get_elem?, value_or,
}
use mattermost_mattermod.Base.Text.{◌+++◌, itoa, atoi, split, trim_space}
use mattermost_mattermod.Model.{PullRequest}
use mattermost_mattermod.World.{
  CherryPickRequest, executed, got_reviews, added_assignees, set_milestone, removed_label,
  added_labels,
}
use mattermost_mattermod.World.Github.{Error, Result, ok, err}
use mattermost_mattermod.World.Monad.{
  Server, M, ◌>>=◌, ◌>>◌, pure, done, panic, gets, modify, error, ask, write, attempt, for_each,
}
use mattermost_mattermod.Server.Github.{comment_on, request_reviewers}
use mattermost_mattermod.Server.Members.{is_org_member}

-- runCommand and runCommandWithOutput
unfoldable pub run_command : Server → String → List String → M (Result String)
unfolding ◌>>=◌
run_command s dir args = ask (λ t. s.outside.execute t dir args) (executed dir args)

-- returnToMaster
unfoldable pub return_to_master : Server → String → M (Unit {0})
unfolding ◌>>=◌ run_command
return_to_master s dir = do _ ← run_command s dir ("git" ∷ "checkout" ∷ "master" ∷ []); done

last : List String → String
last [] = ""
last (x ∷ []) = x
last (x ∷ y ∷ xs) = last (y ∷ xs)

-- A git setting of cloneRepo: it is set where it is not set yet.
set_if_empty : Server → String → String → String → M (Result String)
unfolding ◌>>=◌ run_command attempt
set_if_empty s dir key value = attempt (run_command s dir ("git" ∷ "config" ∷ key ∷ [])) λ out.
    if out == "" then run_command s dir ("git" ∷ "config" ∷ key ∷ value ∷ []) else pure (ok out)

-- cloneRepo
unfoldable pub clone_repo : Server → String → M (Result String)
unfolding ◌>>=◌ run_command attempt set_if_empty
clone_repo s repo_name =
    let origin = "git@github.com:" +++ s.config.github_username +++ "/" +++ repo_name +++ ".git" in
    let upstream = "git@github.com:" +++ s.config.org +++ "/" +++ repo_name +++ ".git" in
    let dir = s.config.repo_folder +++ "/" +++ repo_name in
    attempt (run_command s s.config.repo_folder ("git" ∷ "clone" ∷ origin ∷ [])) λ _.
      attempt (set_if_empty s dir "user.name" s.config.github_username) λ _.
        attempt (set_if_empty s dir "user.email" s.config.github_email) λ _.
          attempt (set_if_empty s dir "merge.renameLimit" s.config.git_config_merge_rename_limit)
            λ _. run_command s dir ("git" ∷ "remote" ∷ "add" ∷ "upstream" ∷ upstream ∷ [])

-- rand.Intn(n), which panics unless n is positive: below 0 and at 0 alike, so the argument
-- len(reviewers) - 1 may be cut off at 0.
unfoldable pub rand_intn : Server → ℕ → M ℕ
unfolding ◌>>=◌
rand_intn s zero = panic
rand_intn s (suc n) = gets (λ w. s.outside.random w.trace (suc n))

-- getAssignee
unfoldable pub get_assignee : Server → PullRequest → M String
unfolding ◌>>=◌ is_org_member rand_intn
get_assignee s pr = do
  member ← is_org_member pr.username
  let reviewer = do
    r ←
        ask (λ t. s.outside.reviews t pr.repo_owner pr.repo_name pr.number)
          (got_reviews pr.repo_owner pr.repo_name pr.number)
    elim r as (λ r. M String) [
      | err e ↦ pure ""
      | ok reviewers ↦ do
        i ← rand_intn s (length reviewers - 1)
        pure (value_or "" (get_elem? reviewers i))
    ]
  if member then pure pr.username else reviewer

-- updateCherryPickLabels
unfoldable pub update_cherry_pick_labels : Server → ℕ → PullRequest → M (Unit {0})
unfolding ◌>>=◌
update_cherry_pick_labels s new_pr_number pr = do
  e ← write s (
      added_labels pr.repo_owner pr.repo_name new_pr_number
        ("AutomatedCherryPick" ∷ "Changelog/Not Needed" ∷ "Docs/Not Needed" ∷ []))
  elim e [
    | some _ ↦ done
    | none ↦ do
      e ← write s (added_labels pr.repo_owner pr.repo_name pr.number ("CherryPick/Done" ∷ []))
      elim e [
        | some _ ↦ done
        | none ↦ do
          _ ← write s (removed_label pr.repo_owner pr.repo_name pr.number "CherryPick/Approved")
          done
      ]
  ]

-- The number at the end of the new pull request's URL in the script's output; 0 where there is none.
unfoldable pub new_pr_number_of : Server → String → ℕ
unfolding split atoi last
new_pr_number_of s out = value_or 0 (atoi (last (split (s.outside.find_pr_url out) 47)))

-- addMilestone
unfoldable pub add_milestone : Server → ℕ → PullRequest → ℕ → M (Unit {0})
unfolding ◌>>=◌
add_milestone s new_pr_number pr milestone =
    write s (set_milestone pr.repo_owner pr.repo_name new_pr_number milestone) >>= λ _. done

-- addReviewers
unfoldable pub add_reviewers : Server → ℕ → PullRequest → List String → M (Unit {0})
unfolding ◌>>=◌ request_reviewers
add_reviewers s new_pr_number pr reviewers = do
  _ ← request_reviewers s pr new_pr_number reviewers []
  done

-- addAssignee
unfoldable pub add_assignee : Server → ℕ → PullRequest → List String → M (Unit {0})
unfolding ◌>>=◌
add_assignee s new_pr_number pr assignees = do
  _ ← write s (added_assignees pr.repo_owner pr.repo_name new_pr_number assignees)
  done

-- What doCherryPick does with the new pull request.
finish_cherry_pick : Server → ℕ → Option ℕ → PullRequest → M (Unit {0})
unfolding ◌>>=◌ get_assignee add_milestone update_cherry_pick_labels add_reviewers add_assignee
finish_cherry_pick s new_pr_number milestone pr = do
  assignee ← get_assignee s pr
  elim milestone as (λ m. M (Unit {0})) [
    | none ↦ done
    | some m ↦ add_milestone s new_pr_number pr m
  ]
  update_cherry_pick_labels s new_pr_number pr
  add_reviewers s new_pr_number pr (assignee ∷ [])
  add_assignee s new_pr_number pr (assignee ∷ [])

-- The part of doCherryPick that runs the script in the checkout.
run_cherry_pick : Server → String → String → Option ℕ → PullRequest → M (String × Option Error)
unfolding ◌>>=◌ run_command return_to_master new_pr_number_of finish_cherry_pick
run_cherry_pick s repo_folder version milestone pr = do
  r ← run_command s repo_folder (
      (s.config.scripts_folder +++ "/cherry-pick.sh")
      ∷ ("upstream/" +++ version)
      ∷ itoa pr.number
      ∷ pr.merge_commit_sha
      ∷ pr.ref
      ∷ [])
  elim r [
    | err e ↦ do return_to_master s repo_folder; pure (e.text, some e)
    | ok out ↦ do
      finish_cherry_pick s (new_pr_number_of s out) milestone pr
      return_to_master s repo_folder
      pure ("", none)
  ]

-- The checkout of the repository, cloned where it is not there.
checkout : Server → String → String → M (Option Error)
unfolding ◌>>=◌ clone_repo
checkout s repo_folder repo_name = do
  exists ← gets (λ w. s.outside.stat w.trace repo_folder)
  let clone = do
    r ← clone_repo s repo_name
    elim r as (λ r. M (Option Error)) [
      | ok _ ↦ pure none
      | err e ↦ pure (
          some (
            error (
              "error while cloning repo: " +++ s.config.org +++ "/" +++ repo_name +++ ", "
              +++ e.text)))
    ]
  if exists then pure none else clone

-- doCherryPick
unfoldable pub do_cherry_pick : Server → String → Option ℕ → PullRequest → M (String × Option Error)
unfolding ◌>>=◌ checkout run_cherry_pick
do_cherry_pick s version milestone pr = do
  let repo_folder = s.config.repo_folder +++ "/" +++ pr.repo_name
  let run = do
    e ← checkout s repo_folder pr.repo_name
    elim e as (λ e. M (String × Option Error)) [
      | some e ↦ pure ("", some e)
      | none ↦
          if s.config.scripts_folder == ""
          then pure (
            "",
            some (
                error
                  "path to folder containing the cherry-pick.sh script is not set in the config"),
          )
          else run_cherry_pick s repo_folder version milestone pr
    ]
  if pr.merge_commit_sha == ""
      then pure ("", some (error ("can't get merge commit SHA for PR: " +++ itoa pr.number)))
      else if s.config.repo_folder == ""
      then pure (
        "",
        some (
            error
              "path to folder containing local checkout of repositories is not set in the config"),
      )
      else run

-- One round of listenCherryPickRequests.
unfoldable pub work_off : Server → CherryPickRequest → M (Unit {0})
unfolding ◌>>=◌ do_cherry_pick comment_on trim_space
work_off s job = do
  r ← do_cherry_pick s (trim_space job.version) job.milestone job.pr
  elim r.1 [
    | none ↦ done
    | some e ↦ comment_on s job.pr (
        "Error trying doing the automated Cherry picking. Please do this manually\n\n```\n" +++ r.0
        +++ "\n```\n")
  ]

-- listenCherryPickRequests, over the requests that it receives.
unfoldable pub listen_cherry_pick_requests : Server → ℕ → M (Unit {0})
unfolding ◌>>=◌ work_off
listen_cherry_pick_requests s zero = done
listen_cherry_pick_requests s (suc n) = do
  queue ← gets (λ w. w.queue)
  elim queue [
    | [] ↦ done
    | job ∷ queue ↦ do
      modify (λ w. record w { queue = queue })
      work_off s job
      listen_cherry_pick_requests s n
  ]

-- finishCherryPickRequests: no request is accepted any more; after five seconds those that still
-- wait are cancelled, and `idle` says that the listener was done before.
unfoldable pub finish_cherry_pick_requests : Server → Bool → M (Unit {0})
unfolding ◌>>=◌ for_each comment_on
finish_cherry_pick_requests s idle = do
  modify (λ w. record w { stopped = true })
  queue ← gets (λ w. w.queue)
  let cancel = do
    modify (λ w. record w { queue = [] })
    for_each queue (λ job. comment_on s job.pr "Cherry picking is canceled due to server shutdown.")
  if idle then done else cancel
