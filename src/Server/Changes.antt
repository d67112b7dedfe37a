-- ===== src/Server/Changes.antt =====
-- server/pull_request_handler.go: checkPullRequestForChanges and the handlers of label changes.
pub mod Answers
pub mod Detection
pub mod Returns
pub mod Sound
use mattermost_mattermod.Base.{
  ℕ, String, Bool, true, false, ◌||◌, Option, none, some, List, [], ◌∷◌, ◌==◌, not, if◌then◌else◌,
  mem, nat_eq, bool_eq,
}
use mattermost_mattermod.Base.Text.{◌+++◌, replace_all}
use mattermost_mattermod.Model.{
  PullRequest, pr_key, get_merged, get_maintainer_can_modify, get_milestone_number,
  get_milestone_title,
}
use mattermost_mattermod.World.Github.{Error, Result, ok, err, Comment}
use mattermost_mattermod.World.Config.{LabelResponse}
use mattermost_mattermod.World.Monad.{
  Server, M, ◌>>=◌, ◌>>◌, pure, done, when, for_each, with_comment_lock, wrap,
}
use mattermost_mattermod.Store.PullRequests
use mattermost_mattermod.Server.Pages.{get_comments}
use mattermost_mattermod.Server.Github.{comment_on, message_by_user_contains}

-- One configured answer of handlePRLabeled: posted once for each user and text.
unfoldable pub answer_label :
    Server → PullRequest → String → List Comment → LabelResponse → M (Unit {0})
unfolding ◌>>=◌ message_by_user_contains comment_on
answer_label s pr added_label comments label = do
  let final_message = replace_all label.message "USERNAME" pr.username
  let answer = do
    said ← message_by_user_contains comments s.config.username final_message
    when (not said) (comment_on s pr final_message)
  when (label.label == added_label) answer

-- handlePRLabeled
unfoldable pub handle_pr_labeled : Server → PullRequest → String → M (Option Error)
unfolding ◌>>=◌ with_comment_lock get_comments for_each answer_label
handle_pr_labeled s pr added_label = with_comment_lock do
  r ← get_comments s pr.repo_owner pr.repo_name pr.number
  elim r [
    | err e ↦ pure (some (wrap "unable to list comments for PR" e))
    | ok comments ↦
        for_each s.config.pr_labels (answer_label s pr added_label comments) >> pure none
  ]

-- handlePRUnlabeled
unfoldable pub handle_pr_unlabeled : Server → PullRequest → String → M (Option Error)
unfolding ◌>>=◌ with_comment_lock
handle_pr_unlabeled s pr removed_label = with_comment_lock (pure none)

-- The first label of the one list that is not in the other.
unfoldable pub first_missing : List String → List String → Option String
first_missing [] dst = none
first_missing (label ∷ src) dst = if mem label dst then first_missing src dst else some label

-- The closure `compare`: it handles that label, and tells whether there is one.
unfoldable pub compare_labels : List String → List String → (String → M (Option Error)) → M Bool
unfolding ◌>>=◌ first_missing
compare_labels src dst f = elim (first_missing src dst) [
  | none ↦ pure false
  | some label ↦ do _ ← f label; pure true
]

-- The comparisons of checkPullRequestForChanges that are not about labels.
unfoldable pub fields_differ : PullRequest → PullRequest → Bool
unfolding get_merged get_maintainer_can_modify get_milestone_number get_milestone_title
fields_differ old pr =
    not (old.ref == pr.ref)
    || not (old.sha == pr.sha)
    || not (old.state == pr.state)
    || not (old.build_status == pr.build_status)
    || not (old.build_conclusion == pr.build_conclusion)
    || not (old.build_link == pr.build_link)
    || not (bool_eq (get_maintainer_can_modify old) (get_maintainer_can_modify pr))
    || not (bool_eq (get_merged old) (get_merged pr))
    || not (nat_eq (get_milestone_number old) (get_milestone_number pr))
    || not (get_milestone_title old == get_milestone_title pr)

-- The part for a pull request that is new in the database.
first_seen : Server → PullRequest → M (Bool × Option Error)
unfolding ◌>>=◌
first_seen s pr = do
  _ ← PullRequests.save s pr
  for_each pr.labels (λ label. handle_pr_labeled s pr label >>= λ _. done)
  pure (false, none)

-- Do the labels differ? A removed label is looked for only if none was added.
labels_differ : Server → PullRequest → PullRequest → M Bool
unfolding ◌>>=◌
labels_differ s old pr = do
  let removed = compare_labels old.labels pr.labels (handle_pr_unlabeled s pr)
  added ← compare_labels pr.labels old.labels (handle_pr_labeled s pr)
  if added then pure true else removed

-- The part for a pull request that is in the database.
compare_stored : Server → PullRequest → PullRequest → M (Bool × Option Error)
unfolding ◌>>=◌ labels_differ
compare_stored s old pr = do
  relabeled ← labels_differ s old pr
  let save_it = do
    r ← PullRequests.save s pr
    elim r as (λ r. M (Bool × Option Error)) [
      | err e ↦ pure (true, some (wrap "could not save PR" e))
      | ok _ ↦ pure (true, none)
    ]
  if relabeled || fields_differ old pr then save_it else pure (false, none)

-- checkPullRequestForChanges
unfoldable pub check_pull_request_for_changes : Server → PullRequest → M (Bool × Option Error)
unfolding ◌>>=◌ first_seen compare_stored
check_pull_request_for_changes s pr = do
  r ← PullRequests.get s (pr_key pr)
  elim r [
    | err e ↦ pure (false, some e)
    | ok none ↦ first_seen s pr
    | ok (some old) ↦ compare_stored s old pr
  ]
