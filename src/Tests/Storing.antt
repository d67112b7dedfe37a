-- ===== src/Tests/Storing.antt =====
-- package store and server/github.go: runs of their theorems.
use mattermost_mattermod.Base.{◌≡◌, refl, Option, none, some, List, [], ◌∷◌, not, ◌&&◌, arith}
use mattermost_mattermod.Model.{PullRequest, Key, key_eq, pr_key}
use mattermost_mattermod.World.{World, Statement, insert_pr}
use mattermost_mattermod.World.Github.{Error}
use mattermost_mattermod.World.Monad.{Server, returned, error}
use mattermost_mattermod.Store.PullRequests.{find, insert, update, save}
use mattermost_mattermod.Store.PullRequests.RoundTrip.{stored, find-save}
use mattermost_mattermod.Store.PullRequests.Interface.{
  Call, saves, gets_at, lists, Answer, Answers, map_of, perform_all,
}
use mattermost_mattermod.Store.PullRequests.Refinement.{perform_all-Answers}
use mattermost_mattermod.Server.Fetch.{pull_request_of, get_pull_request_from_github}
use mattermost_mattermod.Server.Fetch.Stored.{find-get_pull_request_from_github}
use mattermost_mattermod.Server.Changes.{check_pull_request_for_changes}
use mattermost_mattermod.Server.Changes.Detection.{calls, same_labels}
use mattermost_mattermod.Server.Changes.Returns.{
  same_fields, check_pull_request_for_changes_returns,
}
use mattermost_mattermod.Server.Pages.Complete.{last_page, page_before}
use mattermost_mattermod.Server.Changes.Answers.{check_pull_request_for_changes_silent}
use mattermost_mattermod.Tests.{server, outside, config, world, pr, pull, comments, comment}

-- The pull request with a new head.
abbrev pushed : PullRequest
pushed = record pr { sha = "fed" }

abbrev key : Key
key = pr_key pr

find-save_example :
    find key (save server pushed world).1.pull_requests
    ≡ some (stored pushed (find key world.pull_requests))
unfolding save find insert update key_eq
find-save_example = find-save server pushed pushed key world refl refl

-- A database that refuses every INSERT.
abbrev refuses_inserts : Statement → Option Error
refuses_inserts (insert_pr k) = some (error "Error 1146: no such table")
refuses_inserts st = none

abbrev broken : Server
broken = record {
  config = config;
  outside = record outside { statement = λ t st. refuses_inserts st };
  fuel = 2;
}

abbrev empty : World
empty = record world { pull_requests = [] }

-- What GitHub says of the pull request, as it is stored.
abbrev fetched_pr : PullRequest
fetched_pr = record pr { labels = [] }

find-get_pull_request_from_github_example :
    find key (get_pull_request_from_github server pull "opened" world).1.pull_requests
    ≡ some (stored fetched_pr (find key world.pull_requests))
unfolding get_pull_request_from_github pull_request_of find insert update save key_eq
find-get_pull_request_from_github_example =
    find-get_pull_request_from_github server pull "opened" fetched_pr world (λ t k. refl) refl

check_pull_request_for_changes_silent_example :
    let w' = (get_pull_request_from_github server pull "opened" world).1 in
    calls (check_pull_request_for_changes server fetched_pr w').1.trace ≡ calls w'.trace
unfolding get_pull_request_from_github pull_request_of find insert update save key_eq
check_pull_request_for_changes_silent_example =
    check_pull_request_for_changes_silent server pull "opened" fetched_pr world (λ t k. refl) refl

check_pull_request_for_changes_returns_example :
    (e : Option Error) × ((check_pull_request_for_changes server pushed world).0
      ≡ returned (not (same_labels pushed.labels pr.labels && same_fields pr pushed), e))
unfolding find key_eq
check_pull_request_for_changes_returns_example =
    check_pull_request_for_changes_returns server pr pushed comments 2
      (comment "one" ∷ comment "two" ∷ []) world refl refl (λ t page. refl)
      (page_before refl refl (last_page refl refl)) (omega arith) refl

-- A save, a get and a listing.
abbrev some_calls : List Call
some_calls = saves pushed ∷ gets_at key ∷ lists ∷ []

perform_all-Answers_example :
    (answers : List Answer) × ((perform_all server some_calls world).0 ≡ returned answers)
    × Answers (map_of world) some_calls answers (map_of (perform_all server some_calls world).1)
unfolding find
perform_all-Answers_example = perform_all-Answers server some_calls world (refl, tt)
