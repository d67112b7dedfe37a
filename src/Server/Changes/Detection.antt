-- ===== src/Server/Changes/Detection.antt =====
-- server/pull_request_handler.go: what checkPullRequestForChanges takes for a change.
use mattermost_mattermod.Base.{
  String, Bool, true, false, not, ◌≡◌, refl, ◌||◌, ◌&&◌, Option, none, some, List, [], ◌∷◌, mem,
  all, arith, eq_iff, Option-cases, inl, inr,
}
use mattermost_mattermod.Model.{PullRequest, pr_key}
use mattermost_mattermod.World.{World, Event, ran, select_pr}
use mattermost_mattermod.World.Github.{Error}
use mattermost_mattermod.World.Monad.{Server, returned, Outcome-cases, log}
use mattermost_mattermod.Store.PullRequests
use mattermost_mattermod.Server.Changes.{
  first_missing, compare_labels, labels_differ, compare_stored, fields_differ,
  check_pull_request_for_changes,
}

-- The history without the statements to the database.
abbrev pub calls : List Event → List Event
calls [] = []
calls (ran st e ∷ t) = calls t
calls (e ∷ t) = e ∷ calls t

first_missing-cons :
    (src dst : List String) (x : String)
    → first_missing src dst ≡ none
    → first_missing src (x ∷ dst) ≡ none
unfolding first_missing
first_missing-cons [] dst x h = refl
first_missing-cons (a ∷ src) dst x h = ground (arith, first_missing-cons src dst x)

pub first_missing_self : (xs : List String) → first_missing xs xs ≡ none
unfolding first_missing
first_missing_self [] = refl
first_missing_self (x ∷ xs) =
    ground (arith, eq_iff x x, first_missing-cons xs xs x (first_missing_self xs))

labels_differ_same :
    (s : Server) (old pr : PullRequest) (w : World)
    → old.labels ≡ pr.labels
    → labels_differ s old pr w ≡ (returned false, w)
unfolding labels_differ compare_labels
labels_differ_same s old pr w same = rw same (ground (arith, first_missing_self pr.labels))

save-calls :
    (s : Server) (pr : PullRequest) (w : World)
    → calls (PullRequests.save s pr w).1.trace ≡ calls w.trace
unfolding PullRequests.save
save-calls s pr w = ground arith

compare_stored-calls :
    (s : Server) (old pr : PullRequest) (w : World)
    → old.labels ≡ pr.labels
    → calls (compare_stored s old pr w).1.trace ≡ calls w.trace
unfolding compare_stored
compare_stored-calls s old pr w same =
    ground (arith, labels_differ_same s old pr w same, save-calls s pr w)

-- Where the stored row has the same labels, nothing is called but the database.
pub check_pull_request_for_changes-calls :
    (s : Server) (old pr : PullRequest) (w : World)
    → PullRequests.find (pr_key pr) w.pull_requests ≡ some old
    → old.labels ≡ pr.labels
    → calls (check_pull_request_for_changes s pr w).1.trace ≡ calls w.trace
unfolding check_pull_request_for_changes PullRequests.get
check_pull_request_for_changes-calls s old pr w found same = ground (
  arith,
  compare_stored-calls s old pr
      (log (ran (select_pr (pr_key pr)) (s.outside.statement w.trace (select_pr (pr_key pr)))) w)
      same,
)

-- The two lists have the same labels.
abbrev pub same_labels : List String → List String → Bool
same_labels xs ys = all (λ x. mem x ys) xs && all (λ y. mem y xs) ys

first_missing-all :
    (src dst : List String) → first_missing src dst ≡ none → all (λ x. mem x dst) src ≡ true
unfolding first_missing
first_missing-all [] dst h = refl
first_missing-all (a ∷ src) dst h = ground (arith, first_missing-all src dst)

first_missing-not_all :
    (src dst : List String) (label : String)
    → first_missing src dst ≡ some label
    → all (λ x. mem x dst) src ≡ false
unfolding first_missing
first_missing-not_all [] dst label h = cc
first_missing-not_all (a ∷ src) dst label h = ground (arith, first_missing-not_all src dst label)

labels_differ_lem :
    (s : Server) (old pr : PullRequest) (c : Bool) (w : World)
    → (labels_differ s old pr w).0 ≡ returned c
    → c ≡ not (same_labels pr.labels old.labels)
unfolding labels_differ compare_labels
labels_differ_lem s old pr c w h = elim (Option-cases (first_missing pr.labels old.labels)) [
  | inr (label, added) ↦ ground (arith, first_missing-not_all pr.labels old.labels label added)
  | inl kept ↦ elim (Option-cases (first_missing old.labels pr.labels)) [
    | inr (label, removed) ↦ ground (
      arith,
      first_missing-all pr.labels old.labels kept,
      first_missing-not_all old.labels pr.labels label removed,
    )
    | inl same ↦ ground (
      arith,
      first_missing-all pr.labels old.labels kept,
      first_missing-all old.labels pr.labels same,
    )
  ]
]

compare_stored_lem :
    (s : Server) (old pr : PullRequest) (c : Bool) (e : Option Error) (w : World)
    → (compare_stored s old pr w).0 ≡ returned (c, e)
    → c ≡ (not (same_labels pr.labels old.labels) || fields_differ old pr)
unfolding compare_stored
compare_stored_lem s old pr c e w h = elim (Outcome-cases (labels_differ s old pr w).0) [
  | inl (d, q) ↦ ground (arith, labels_differ_lem s old pr d w q)
  | inr (inl q) ↦ absurd (ground arith)
  | inr (inr q) ↦ absurd (ground arith)
]

-- For a pull request that is stored, checkPullRequestForChanges, if the row can be read and it
-- returns, reports a change exactly if the two have not the same set of labels or one of the ten
-- other fields differs.
pub check_pull_request_for_changes_lem :
    (s : Server) (old pr : PullRequest) (c : Bool) (e : Option Error) (w : World)
    → PullRequests.find (pr_key pr) w.pull_requests ≡ some old
    → s.outside.statement w.trace (select_pr (pr_key pr)) ≡ none
    → (check_pull_request_for_changes s pr w).0 ≡ returned (c, e)
    → c ≡ (not (same_labels pr.labels old.labels) || fields_differ old pr)
unfolding check_pull_request_for_changes PullRequests.get
check_pull_request_for_changes_lem s old pr c e w found reads h =
    ground (arith, compare_stored_lem s old pr c e (log (ran (select_pr (pr_key pr)) none) w))
