-- ===== src/Server/Tasks/Stale.antt =====
-- server/pull_request_handler.go: which pull requests CheckPRActivity marks as stale.
use mattermost_mattermod.Base.{
  ℕ, ◌+◌, ◌*◌, String, Bool, false, ◌≡◌, refl, ◌&&◌, ◌||◌, not, some, List, [], ◌∷◌, ◌==◌, arith,
  any, mem, leb, nat_eq, eq_iff,
}
use mattermost_mattermod.Model.{PullRequest, state_closed}
use mattermost_mattermod.World.{World, Event, added_labels, got_pull, got_labels}
use mattermost_mattermod.World.Github.{ok, GhPull, Label}
use mattermost_mattermod.World.Monad.{Server, returned, log}
use mattermost_mattermod.Server.Github.{
  get_pull, list_labels, labels_to_string_array, add_labels, comment_on,
}
use mattermost_mattermod.Server.Members.{is_org_member}
use mattermost_mattermod.Server.Tasks.{
  check_activity_of, check_age, check_labels, mark_stale, is_stale,
}

-- The labels with these names.
abbrev pub named : List String → List Label
named [] = []
named (name ∷ names) = record { name = some name } ∷ named names

-- One of the labels was put on the pull request.
abbrev pub labels_with : PullRequest → List String → Event → Bool
labels_with pr labels (added_labels owner name number ls e) =
    (owner == pr.repo_owner)
    && (name == pr.repo_name)
    && nat_eq number pr.number
    && any (λ l. mem l labels) ls
labels_with pr labels e = false

labels_to_string_array-named :
    (names : List String) (w : World) → labels_to_string_array (named names) w ≡ (returned names, w)
unfolding labels_to_string_array
labels_to_string_array-named [] w = refl
labels_to_string_array-named (n ∷ names) w = ground (arith, labels_to_string_array-named names w)

-- Should the pull request be marked? It is left alone for as many days as are configured, its author
-- is no member of the organization, and no label exempts it.
abbrev pub should_mark : Server → World → PullRequest → ℕ → List String → ℕ → Bool
should_mark s w pr updated_at names now =
    not (mem pr.username w.org_members)
    && leb (updated_at + s.config.days_until_stale * 86400) now
    && not (any (λ label. mem label s.config.exempt_stale_labels) names)

-- A round of CheckPRActivity for a pull request that GitHub says is not closed, and whose labels it
-- gives, puts the stale label on it exactly if it is old enough, its author is no member and no label
-- exempts it.
pub check_activity_of_lem :
    (s : Server) (pr : PullRequest) (pull : GhPull) (state : String) (updated_at now : ℕ)
    (names : List String) (w : World)
    → s.outside.pull w.trace pr.repo_owner pr.repo_name pr.number ≡ ok pull
    → pull.state ≡ some state
    → (state == state_closed) ≡ false
    → pull.updated_at ≡ some updated_at
    → let t = got_pull pr.repo_owner pr.repo_name pr.number (ok pull) ∷ w.trace in
      s.outside.now t ≡ now
      → s.outside.labels t pr.repo_owner pr.repo_name pr.number ≡ ok (named names)
      → any (labels_with pr (s.config.stale_label ∷ [])) (check_activity_of s pr w).1.trace ≡ (
          should_mark s w pr updated_at names now
          || any (labels_with pr (s.config.stale_label ∷ [])) w.trace)
unfolding check_activity_of check_age check_labels mark_stale is_stale get_pull list_labels
    add_labels comment_on is_org_member
check_activity_of_lem s pr pull state updated_at now names w p open' not_closed u n l =
    let w₁ = log (got_pull pr.repo_owner pr.repo_name pr.number (ok pull)) w in
    let w₂ = log (got_labels pr.repo_owner pr.repo_name pr.number (ok (named names))) w₁ in
    ground (
      arith,
      labels_to_string_array-named names w₂,
      eq_iff s.config.stale_label s.config.stale_label,
      eq_iff pr.repo_owner pr.repo_owner,
      eq_iff pr.repo_name pr.repo_name,
    )
