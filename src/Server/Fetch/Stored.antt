-- ===== src/Server/Fetch/Stored.antt =====
-- server/github.go: a pull request that is fetched is stored before the handler goes on.
use mattermost_mattermod.Base.{
  String, ◌≡◌, refl, ap, ◌∙◌, sym, none, some, List, [], ◌∷◌, arith, inl, inr,
}
use mattermost_mattermod.Model.{PullRequest, pr_key}
use mattermost_mattermod.Model.Keys.{key_eq_refl}
use mattermost_mattermod.World.{World, Event, insert_pr}
use mattermost_mattermod.World.Github.{ok, GhPull, Label, Result-cases}
use mattermost_mattermod.World.Monad.{Server, returned, pure}
use mattermost_mattermod.World.Monad.Inversion.{attempt-eq-ok}
use mattermost_mattermod.Store.PullRequests.{find, save}
use mattermost_mattermod.Store.PullRequests.RoundTrip.{stored, find-save}
use mattermost_mattermod.Server.Github.{labels_to_string_array, list_labels}
use mattermost_mattermod.Server.Fetch.{
  store_pull_request, label_and_store, with_build, with_labels, pull_request_of,
  get_pull_request_from_github,
}

-- Reading the names of labels changes nothing.
pub labels_to_string_array-world :
    (labels : List Label) (w : World) → (labels_to_string_array labels w).1 ≡ w
unfolding labels_to_string_array
labels_to_string_array-world [] w = refl
labels_to_string_array-world (label ∷ labels) w =
    ground (arith, labels_to_string_array-world labels w)

pub with_build-pull_requests :
    (s : Server) (pr : PullRequest) (w : World)
    → (with_build s pr w).1.pull_requests ≡ w.pull_requests
unfolding with_build
with_build-pull_requests s pr w = ground arith

pub with_labels-pull_requests :
    (s : Server) (action : String) (pr : PullRequest) (w : World)
    → (with_labels s action pr w).1.pull_requests ≡ w.pull_requests
unfolding with_labels
with_labels-pull_requests s action pr w =
    let w₁ = (list_labels s pr.repo_owner pr.repo_name pr.number w).1 in
    elim (Result-cases (s.outside.labels w.trace pr.repo_owner pr.repo_name pr.number)) [
      | inl (labels, e) ↦ ground (arith, labels_to_string_array-world labels w₁)
      | inr (x, e) ↦ ground arith
    ]

-- What a step that ends with a save has done.
abbrev pub EndsBySave : Server → PullRequest → World → World → Type 0
EndsBySave s pr w v =
    (w' : World) × (r : PullRequest) × (w'.pull_requests ≡ w.pull_requests)
    × ((save s pr w').0 ≡ returned (ok r))
    × (v ≡ (save s pr w').1)

store_pull_request-save :
    (s : Server) (built pr : PullRequest) (w : World)
    → (store_pull_request s built w).0 ≡ returned (ok pr)
    → EndsBySave s pr w (store_pull_request s built w).1
unfolding store_pull_request
store_pull_request-save s built pr w h =
    let (r, e, q) = attempt-eq-ok (save s built) (λ _. pure (ok built)) pr w h in
    let same : built ≡ pr = ground arith in (w, r, refl, rw (← same) e, ground (arith, same))

label_and_store-save :
    (s : Server) (action : String) (built pr : PullRequest) (w : World)
    → (label_and_store s action built w).0 ≡ returned (ok pr)
    → EndsBySave s pr w (label_and_store s action built w).1
unfolding label_and_store
label_and_store-save s action built pr w h =
    let (labeled, e, q) =
      attempt-eq-ok (with_labels s action built) (store_pull_request s) pr w h in
    let (w', r, same, saved, end) =
      store_pull_request-save s labeled pr (with_labels s action built w).1
        (ap (λ x. x.0) (sym q) ∙ h) in
    (w', r, same ∙ with_labels-pull_requests s action built w, saved, ap (λ x. x.1) q ∙ end)

-- A successful fetch ends with the save of the pull request that it hands on.
get_pull_request_from_github-save :
    (s : Server) (pull : GhPull) (action : String) (pr : PullRequest) (w : World)
    → (get_pull_request_from_github s pull action w).0 ≡ returned (ok pr)
    → EndsBySave s pr w (get_pull_request_from_github s pull action w).1
unfolding get_pull_request_from_github
get_pull_request_from_github-save s pull action pr w h =
    let p = pull_request_of pull in
    let (built, e, q) = attempt-eq-ok (with_build s p) (label_and_store s action) pr w h in
    let (w', r, same, saved, end) =
      label_and_store-save s action built pr (with_build s p w).1 (ap (λ x. x.0) (sym q) ∙ h) in
    (w', r, same ∙ with_build-pull_requests s p w, saved, ap (λ x. x.1) q ∙ end)

-- The driver accepts every INSERT of a key that is not there.
abbrev pub AcceptsInserts : Server → Type 0
AcceptsInserts s =
    (t : List Event) (row : PullRequest) → s.outside.statement t (insert_pr row) ≡ none

-- Where the driver accepts new rows, a pull request that GetPullRequestFromGithub hands on is in the
-- database at once, but for the columns that the statements do not name.
pub find-get_pull_request_from_github :
    (s : Server) (pull : GhPull) (action : String) (pr : PullRequest) (w : World)
    → AcceptsInserts s
    → (get_pull_request_from_github s pull action w).0 ≡ returned (ok pr)
    → find (pr_key pr) (get_pull_request_from_github s pull action w).1.pull_requests
      ≡ some (stored pr (find (pr_key pr) w.pull_requests))
find-get_pull_request_from_github s pull action pr w accepts h =
    let (w', r, same, saved, end) = get_pull_request_from_github-save s pull action pr w h in
    rw (end, find-save s pr r (pr_key pr) w' (accepts w'.trace pr) saved, same)
      (ground (arith, key_eq_refl (pr_key pr)))
