-- ===== src/Server/AutoMerge/Said.antt =====
-- server/auto_merge.go: what GitHub has said of a pull request, and what the rows ask for.
use mattermost_mattermod.Base.{
  ℕ, String, Bool, true, false, not, ◌&&◌, ◌≡◌, List, [], ◌∷◌, ◌==◌, any, All, is_nil, arith,
  nat_eq, eq_iff, ◌||◌,
}
use mattermost_mattermod.Model.{PullRequest, state_closed, mergeable_state_clean}
use mattermost_mattermod.World.{Event, got_pull, got_combined_status, got_reviewers}
use mattermost_mattermod.World.Github.{ok}
use mattermost_mattermod.World.Monad.{Server}
use mattermost_mattermod.Server.Github.{get_state}
use mattermost_mattermod.Server.BlockMerge.{state_success}
use mattermost_mattermod.Server.AutoMerge.{has_auto_merge}

-- GitHub has said that the head of the pull request is `sha`, open and clean to merge.
abbrev pub says_clean : String → String → ℕ → String → Event → Bool
says_clean owner name number sha (got_pull o n k (ok pull)) =
    (o == owner)
    && (n == name)
    && nat_eq k number
    && (pull.head_sha == sha)
    && (pull.mergeable_state == mergeable_state_clean)
    && not (get_state pull == state_closed)
says_clean owner name number sha e = false

-- GitHub has said that the checks of the commit `sha` succeeded.
abbrev pub says_success : String → String → String → Event → Bool
says_success owner name sha (got_combined_status o n h (ok status)) =
    (o == owner)
    && (n == name)
    && (h == sha)
    && (sha == status.sha)
    && (status.state == state_success)
says_success owner name sha e = false

-- GitHub has said that no review is outstanding.
abbrev pub says_reviewed : String → String → ℕ → Event → Bool
says_reviewed owner name number (got_reviewers o n k (ok r)) =
    (o == owner) && (n == name) && nat_eq k number && is_nil r.users && is_nil r.teams
says_reviewed owner name number e = false

-- The row asks for the merge of the pull request.
abbrev pub asks_merge : Server → String → String → ℕ → PullRequest → Bool
asks_merge s owner name number row =
    (row.repo_owner == owner)
    && (row.repo_name == name)
    && nat_eq row.number number
    && has_auto_merge s row.labels

-- A pull request that has the label is one that the test knows.
abbrev pub Listed : Server → (String → String → ℕ → Bool) → PullRequest → Type 0
Listed s asked pr =
    (not (has_auto_merge s pr.labels) || asked pr.repo_owner pr.repo_name pr.number) ≡ true

-- The test of the pull requests that one of the rows asks to merge.
abbrev pub asked_by : Server → List PullRequest → String → String → ℕ → Bool
asked_by s rows owner name number = any (asks_merge s owner name number) rows

Listed-cons :
    (s : Server) (row : PullRequest) (rows prs : List PullRequest)
    → All (Listed s (asked_by s rows)) prs
    → All (Listed s (asked_by s (row ∷ rows))) prs
Listed-cons s row rows [] h = tt
Listed-cons s row rows (pr ∷ prs) h = (ground (arith, h.0), Listed-cons s row rows prs h.1)

pub every_row_asks : (s : Server) (prs : List PullRequest) → All (Listed s (asked_by s prs)) prs
every_row_asks s [] = tt
every_row_asks s (pr ∷ prs) = (
  ground (arith, eq_iff pr.repo_owner pr.repo_owner, eq_iff pr.repo_name pr.repo_name),
  Listed-cons s pr prs prs (every_row_asks s prs),
)

pub every_row_passes : (s : Server) (prs : List PullRequest) → All (Listed s (λ o n k. true)) prs
every_row_passes s [] = tt
every_row_passes s (pr ∷ prs) = (ground arith, every_row_passes s prs)
