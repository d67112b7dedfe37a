-- ===== src/Server/Fetch/TooLong.antt =====
-- server/github.go: a status that the column BuildStatus of store/migrations/000001_base.up.sql has no
-- room for.
use mattermost_mattermod.Base.{
  String, true, false, ◌≡◌, ◌≢◌, refl, sym, ap, ◌∙◌, Option, none, some, List, [], ◌∷◌, ◌==◌, arith,
  is_some, if◌then◌else◌, Bool-cases, inl, inr,
}
use mathlib.Core.Path.{subst}
use mattermost_mattermod.Model.{PullRequest, pr_key}
use mattermost_mattermod.World.{World, Event, got_combined_status, update_pr, ran, insert_pr}
use mattermost_mattermod.World.Github.{ok, GhPull, CheckRun, Status, Result-cases}
use mattermost_mattermod.World.Config.{Repository, get_repository}
use mattermost_mattermod.World.Monad.{Server, returned, pure}
use mattermost_mattermod.World.Monad.Inversion.{attempt-eq-ok}
use mattermost_mattermod.Store.PullRequests.{find, save, duplicate_key}
use mattermost_mattermod.Store.Schema.Widths.{row_fits, texts_of, column_has_room, has_room}
use mattermost_mattermod.Server.Fetch.Stored.{with_build-pull_requests, with_labels-pull_requests}
use mattermost_mattermod.Server.Fetch.{
  with_status, with_check_run, fetch_build, with_build, with_labels, store_pull_request,
  label_and_store, pull_request_of, get_pull_request_from_github,
}

-- The status of the first check run of the name.
unfoldable pub run_status : String → List CheckRun → Option String
run_status name [] = none
run_status name (run ∷ runs) = if run.name == name then some run.status else run_status name runs

completed-row_fits : (pr : PullRequest) → pr.build_status ≡ "completed" → row_fits pr ≡ false
unfolding row_fits column_has_room texts_of has_room
completed-row_fits pr e = rw e refl

with_check_run-completed :
    (name : String) (runs : List CheckRun) (pr : PullRequest)
    → run_status name runs ≡ some "completed"
    → ((with_check_run name runs pr).build_status ≡ "completed")
      × (pr_key (with_check_run name runs pr) ≡ pr_key pr)
unfolding run_status with_check_run
with_check_run-completed name [] pr h = absurd (ground arith)
with_check_run-completed name (run ∷ runs) pr h = elim (Bool-cases (run.name == name)) [
  | inl here ↦ ground arith
  | inr later ↦ ground (arith, with_check_run-completed name runs pr)
]

with_status-key :
    (context : String) (statuses : List Status) (pr : PullRequest)
    → pr_key (with_status context statuses pr) ≡ pr_key pr
unfolding with_status
with_status-key context [] pr = refl
with_status-key context (status ∷ statuses) pr = ground (arith, with_status-key context statuses pr)

-- GitHub has a completed check run of the name for the commit, as often as it is asked.
abbrev pub RunCompleted : Server → PullRequest → String → Type 0
RunCompleted s pr name =
    (t : List Event) (runs : List CheckRun)
    → s.outside.check_runs t pr.repo_owner pr.repo_name pr.sha ≡ ok runs
    → run_status name runs ≡ some "completed"

-- What a build has that is completed.
abbrev Completed : PullRequest → PullRequest → Type 0
Completed pr built = (built.build_status ≡ "completed") × (pr_key built ≡ pr_key pr)

fetch_build-Completed :
    (s : Server) (context : String) (pr built : PullRequest) (w : World)
    → RunCompleted s pr context
    → (fetch_build s context pr w).0 ≡ returned (ok built)
    → Completed pr built
unfolding fetch_build
fetch_build-Completed s context pr built w done h =
    elim (Result-cases (s.outside.combined_status w.trace pr.repo_owner pr.repo_name pr.sha)) [
      | inr (x, e) ↦ absurd (ground arith)
      | inl (combined, e) ↦
          let got = got_combined_status pr.repo_owner pr.repo_name pr.sha (ok combined) in
          let t = got ∷ w.trace in
          let p = with_status context combined.statuses pr in
          elim (Result-cases (s.outside.check_runs t pr.repo_owner pr.repo_name pr.sha)) [
            | inr (x, e') ↦ absurd (ground arith)
            | inl (runs, e') ↦
                let named = with_check_run-completed context runs p (done t runs e') in
                let same : with_check_run context runs p ≡ built = ground arith in
                subst (Completed pr) same
                  (named.0, named.1 ∙ with_status-key context combined.statuses pr)
          ]
    ]

with_build-Completed :
    (s : Server) (pr built : PullRequest) (repo : Repository) (w : World)
    → get_repository s.config.repositories pr.repo_owner pr.repo_name ≡ some repo
    → (repo.build_status_context == "") ≡ false
    → RunCompleted s pr repo.build_status_context
    → (with_build s pr w).0 ≡ returned (ok built)
    → Completed pr built
unfolding with_build
with_build-Completed s pr built repo w e g done h =
    fetch_build-Completed s repo.build_status_context pr built w done
      (ap (λ m. (m w).0) (sym built_by) ∙ h)
  where
    built_by : with_build s pr ≡ fetch_build s repo.build_status_context pr
    built_by = rw (with_build, e, g) refl

with_labels-kept :
    (s : Server) (action : String) (pr labeled : PullRequest) (w : World)
    → (with_labels s action pr w).0 ≡ returned (ok labeled)
    → (labeled.build_status ≡ pr.build_status) × (pr_key labeled ≡ pr_key pr)
unfolding with_labels
with_labels-kept s action pr labeled w h = ground arith

-- A row that is there and an UPDATE that is refused make the save fail.
save_refused :
    (s : Server) (pr old r : PullRequest) (w : World)
    → find (pr_key pr) w.pull_requests ≡ some old
    → ((t : List Event) → is_some (s.outside.statement t (update_pr pr)) ≡ true)
    → (save s pr w).0 ≡ returned (ok r)
    → ⊥
unfolding save
save_refused s pr old r w e refuses h =
    ground (arith, refuses (ran (insert_pr pr) (some duplicate_key) ∷ w.trace))

-- The driver of a database in strict mode, which MySQL is in by default: where the row is there, an
-- UPDATE with a text that its column has no room for is an error.
abbrev pub RefusesLongTexts : Server → PullRequest → Type 0
RefusesLongTexts s of =
    (t : List Event) (row : PullRequest)
    → pr_key row ≡ pr_key of
    → row_fits row ≡ false
    → is_some (s.outside.statement t (update_pr row)) ≡ true

store_pull_request-refused :
    (s : Server) (of old pr r : PullRequest) (w : World)
    → find (pr_key of) w.pull_requests ≡ some old
    → RefusesLongTexts s of
    → Completed of pr
    → (store_pull_request s pr w).0 ≡ returned (ok r)
    → ⊥
unfolding store_pull_request
store_pull_request-refused s of old pr r w e refuses done h =
    let (saved, q, rest) = attempt-eq-ok (save s pr) (λ _. pure (ok pr)) r w h in
    save_refused s pr old saved w (ap (λ k. find k w.pull_requests) done.1 ∙ e)
      (λ t. refuses t pr done.1 (completed-row_fits pr done.0)) q

-- A repository has a status context, and GitHub has a completed check run of that name for the head
-- of a pull request whose row is in the table: then GetPullRequestFromGithub never hands on a pull
-- request where the database refuses a text that a column has no room for, as BuildStatus has room
-- for 8 characters and "completed" has 9.
pub get_pull_request_from_github_too_long :
    (s : Server) (pull : GhPull) (action : String) (repo : Repository) (old pr : PullRequest)
    (w : World)
    → get_repository s.config.repositories pull.base_owner pull.base_name ≡ some repo
    → (repo.build_status_context == "") ≡ false
    → find (pr_key (pull_request_of pull)) w.pull_requests ≡ some old
    → RunCompleted s (pull_request_of pull) repo.build_status_context
    → RefusesLongTexts s (pull_request_of pull)
    → (get_pull_request_from_github s pull action w).0 ≢ returned (ok pr)
unfolding get_pull_request_from_github pull_request_of label_and_store
get_pull_request_from_github_too_long s pull action repo old pr w e g row done refuses h =
    let p = pull_request_of pull in
    let (built, q, rest) = attempt-eq-ok (with_build s p) (label_and_store s action) pr w h in
    let completed = with_build-Completed s p built repo w e g done q in
    let w₁ = (with_build s p w).1 in
    let (labeled, q', rest') =
      attempt-eq-ok (with_labels s action built) (store_pull_request s) pr w₁
        (ap (λ x. x.0) (sym rest) ∙ h) in
    let kept = with_labels-kept s action built labeled w₁ q' in
    store_pull_request-refused s p old labeled pr (with_labels s action built w₁).1
      (ap (λ rows. find (pr_key p) rows)
          (with_labels-pull_requests s action built w₁ ∙ with_build-pull_requests s p w)
        ∙ row)
      refuses (kept.0 ∙ completed.0, kept.1 ∙ completed.1)
      (ap (λ x. x.0) (sym rest') ∙ ap (λ x. x.0) (sym rest) ∙ h)
