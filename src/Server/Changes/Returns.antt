-- ===== src/Server/Changes/Returns.antt =====
-- server/pull_request_handler.go: checkPullRequestForChanges returns.
use mattermost_mattermod.Base.{
  ℕ, ◌≤◌, String, Bool, true, false, ◌≡◌, refl, ◌&&◌, ◌||◌, not, Option, none, some, List, [], ◌∷◌,
  ◌==◌, arith, bool_eq, nat_eq, value_or, all, is_some, Option-cases, Bool-cases, inl, inr,
  if◌then◌else◌,
}
use mattermost_mattermod.Base.Text.{contains, replace_all}
use mattermost_mattermod.Model.{PullRequest, pr_key}
use mattermost_mattermod.World.{World, Event, ran, select_pr, locked}
use mattermost_mattermod.World.Github.{Error, Result, Result-cases, ok, Comment, Page}
use mattermost_mattermod.World.Config.{LabelResponse}
use mattermost_mattermod.World.Monad.{
  Server, M, returned, log, for_each, with_comment_lock, wrap, Outcome-cases,
}
use mattermost_mattermod.Store.PullRequests
use mattermost_mattermod.Server.Github.{message_by_user_contains, comment_on}
use mattermost_mattermod.Server.Pages.{get_comments}
use mattermost_mattermod.Server.Pages.Complete.{Listing, get_comments_complete}
use mattermost_mattermod.Server.Changes.{
  answer_label, handle_pr_labeled, handle_pr_unlabeled, compare_labels, first_missing,
  fields_differ, labels_differ, compare_stored, check_pull_request_for_changes,
}
use mattermost_mattermod.Server.Changes.Detection.{same_labels, check_pull_request_for_changes_lem}

-- The comment names its author and has a text.
abbrev pub complete : Comment → Bool
complete c = is_some c.login && is_some c.body

message_by_user_contains_returns :
    (comments : List Comment) (username text : String) (w : World)
    → all complete comments ≡ true
    → (b : Bool) × (message_by_user_contains comments username text w ≡ (returned b, w))
unfolding message_by_user_contains
message_by_user_contains_returns [] username text w h = (false, refl)
message_by_user_contains_returns (c ∷ cs) username text w h = elim (Option-cases c.login) [
  | inl q ↦ absurd (ground arith)
  | inr (login, q) ↦ elim (Option-cases c.body) [
    | inl p ↦ absurd (ground arith)
    | inr (text', p) ↦
        let t : all complete cs ≡ true = ground arith in
        let (b, e) = message_by_user_contains_returns cs username text w t in
        ((if (login == username) && contains text' text then true else b), ground arith)
  ]
]

answer_label_returns :
    (s : Server) (pr : PullRequest) (added : String) (comments : List Comment)
    (label : LabelResponse) (w : World)
    → all complete comments ≡ true
    → (answer_label s pr added comments label w).0 ≡ returned tt
unfolding answer_label comment_on
answer_label_returns s pr added comments label w h =
    let (b, e) =
      message_by_user_contains_returns comments s.config.username
        (replace_all label.message "USERNAME" pr.username) w h in
    ground (arith, e)

for_each_returns :
    {A : Type 0} (xs : List A) (act : A → M (Unit {0})) (w : World)
    → ((a : A) (w : World) → (act a w).0 ≡ returned tt)
    → (for_each xs act w).0 ≡ returned tt
unfolding for_each
for_each_returns [] act w h = refl
for_each_returns (x ∷ xs) act w h = ground (arith, h x w, for_each_returns xs act (act x w).1 h)

save_returns :
    (s : Server) (pr : PullRequest) (w : World)
    → (r : Result PullRequest) × ((PullRequests.save s pr w).0 ≡ returned r)
unfolding PullRequests.save
save_returns s pr w = elim (Outcome-cases (PullRequests.save s pr w).0) [
  | inl (r, e) ↦ (r, e)
  | inr (inl e) ↦ absurd (ground arith)
  | inr (inr e) ↦ absurd (ground arith)
]

module _ (s : Server) (pr : PullRequest) (items : List Comment)
    (answers : (w : World)
      → (get_comments s pr.repo_owner pr.repo_name pr.number w).0 ≡ returned (ok items))
    (good : all complete items ≡ true) where
  handle_pr_labeled_returns :
      (label : String) (w : World) → (handle_pr_labeled s pr label w).0 ≡ returned none
  unfolding handle_pr_labeled with_comment_lock
  handle_pr_labeled_returns label w =
      let w₁ = (get_comments s pr.repo_owner pr.repo_name pr.number (log locked w)).1 in
      ground (
        arith,
        answers (log locked w),
        for_each_returns s.config.pr_labels (answer_label s pr label items) w₁
            (λ a w. answer_label_returns s pr label items a w good),
      )

  labels_differ_returns :
      (old : PullRequest) (w : World) → (b : Bool) × ((labels_differ s old pr w).0 ≡ returned b)
  unfolding labels_differ compare_labels handle_pr_unlabeled with_comment_lock
  labels_differ_returns old w = elim (Option-cases (first_missing pr.labels old.labels)) [
    | inr (label, added) ↦ (true, ground (arith, handle_pr_labeled_returns label w))
    | inl kept ↦ elim (Option-cases (first_missing old.labels pr.labels)) [
      | inr (label, removed) ↦ (true, ground arith)
      | inl same ↦ (false, ground arith)
    ]
  ]

  compare_stored_returns :
      (old : PullRequest) (w : World)
      → (c : Bool) × (e : Option Error) × ((compare_stored s old pr w).0 ≡ returned (c, e))
  unfolding compare_stored
  compare_stored_returns old w =
      let (b, q) = labels_differ_returns old w in
      let w₁ = (labels_differ s old pr w).1 in
      elim (Bool-cases (b || fields_differ old pr)) [
        | inr same ↦ (false, none, ground arith)
        | inl differs ↦
            let (r, e) = save_returns s pr w₁ in
            elim (Result-cases r) [
              | inl (x, p) ↦ (true, none, ground arith)
              | inr (x, p) ↦ (true, some (wrap "could not save PR" x), ground arith)
            ]
      ]

-- Two pull requests have the same ten fields that are compared, a nil pointer counting as the zero value.
abbrev pub same_fields : PullRequest → PullRequest → Bool
same_fields old pr =
    (old.ref == pr.ref)
    && (old.sha == pr.sha)
    && (old.state == pr.state)
    && (old.build_status == pr.build_status)
    && (old.build_conclusion == pr.build_conclusion)
    && (old.build_link == pr.build_link)
    && bool_eq (value_or false old.maintainer_can_modify) (value_or false pr.maintainer_can_modify)
    && bool_eq (value_or false old.merged) (value_or false pr.merged)
    && nat_eq (value_or 0 old.milestone_number) (value_or 0 pr.milestone_number)
    && (value_or "" old.milestone_title == value_or "" pr.milestone_title)

fields_differ-same_fields : (old pr : PullRequest) → fields_differ old pr ≡ not (same_fields old pr)
unfolding fields_differ
fields_differ-same_fields old pr = ground arith

-- For a pull request that is stored, where the row can be read, GitHub's answers for its comments do
-- not change on the way, the fuel is at least the number of their pages and each names its author and
-- has a text, checkPullRequestForChanges returns, and reports a change exactly if the two have not the
-- same set of labels or one of the ten other fields differs.
pub check_pull_request_for_changes_returns :
    (s : Server) (old pr : PullRequest) (pages : ℕ → Page Comment) (k : ℕ) (items : List Comment)
    (w : World)
    → PullRequests.find (pr_key pr) w.pull_requests ≡ some old
    → s.outside.statement w.trace (select_pr (pr_key pr)) ≡ none
    → ((t : List Event) (page : ℕ)
        → s.outside.comments t pr.repo_owner pr.repo_name pr.number page ≡ ok (pages page))
    → Listing pages 0 k items
    → k ≤ s.fuel
    → all complete items ≡ true
    → (e : Option Error) × ((check_pull_request_for_changes s pr w).0
        ≡ returned (not (same_labels pr.labels old.labels && same_fields old pr), e))
unfolding check_pull_request_for_changes PullRequests.get
check_pull_request_for_changes_returns s old pr pages k items w found reads answers l enough good =
    let gets : (w : World)
        → (get_comments s pr.repo_owner pr.repo_name pr.number w).0 ≡ returned (ok items) =
      λ w.
        get_comments_complete s pr.repo_owner pr.repo_name pr.number pages k items w answers l
          enough in
    let w₁ = log (ran (select_pr (pr_key pr)) none) w in
    let (c, e, q) = compare_stored_returns s pr items gets good old w₁ in
    let m : (check_pull_request_for_changes s pr w).0 ≡ returned (c, e) = ground (arith, q) in
    let v = check_pull_request_for_changes_lem s old pr c e w found reads m in
    let same : c ≡ not (same_labels pr.labels old.labels && same_fields old pr) =
      ground (arith, v, fields_differ-same_fields old pr) in
    (e, rw (← same) m)
