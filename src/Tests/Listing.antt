-- ===== src/Tests/Listing.antt =====
-- The loops over pages and over a diff: runs of their theorems.
use mathlib.Core.Option
use mattermost_mattermod.Base.{
  ◌+◌, String, true, any, ◌≡◌, refl, ℕ, nat_eq, if◌then◌else◌, List, [], ◌∷◌, arith,
}
use mattermost_mattermod.World.{listed_pulls}
use mattermost_mattermod.World.Github.{ok, err, GhPull, Page}
use mattermost_mattermod.World.Monad.{Server, returned, unfinished, error, for_each, ◌>>◌, emit}
use mattermost_mattermod.Server.Pages.{get_comments}
use mattermost_mattermod.Server.Pages.Complete.{last_page, page_before, get_comments_complete}
use mattermost_mattermod.Server.Review.{scan_hunks}
use mattermost_mattermod.Server.Review.Position.{first_error, all_lines, scan_hunks_lem}
use mattermost_mattermod.Server.Tick.{tick_pages, list_pulls, tick_pull}
use mattermost_mattermod.Server.Tick.Progress.{look_at, tick_pages-Listing, tick_pages_stuck}
use mattermost_mattermod.Server.Tick.Progress
use mattermost_mattermod.Server.Tasks.{check_activity_of}
use mattermost_mattermod.Server.Tasks.Stale.{labels_with, check_activity_of_lem}
use mattermost_mattermod.Tests.{
  server, pr, pull, outside, config, world, comments, comment, repository, last_pulls,
}

get_comments_complete_example :
    (get_comments server "mattermost" "mattermod" 12 world).0
    ≡ returned (ok (comment "one" ∷ comment "two" ∷ []))
get_comments_complete_example =
    get_comments_complete server "mattermost" "mattermod" 12 comments 2
      (comment "one" ∷ comment "two" ∷ []) world (λ t page. refl)
      (page_before refl refl (last_page refl refl)) (omega arith)

abbrev hunks : List String
hunks = "+a\n-b" ∷ "+mlog.Error(err)" ∷ []

scan_hunks_lem_example :
    scan_hunks 0 hunks ≡ Option.map (λ n. 0 + n) (first_error (all_lines hunks))
scan_hunks_lem_example = scan_hunks_lem 0 hunks

-- GitHub lists two pages, of which the second one, the page 2, is the last.
abbrev pull_pages : ℕ → Page GhPull
pull_pages page = if nat_eq page 2 then last_pulls else record last_pulls { next_page = 2 }

abbrev paged : Server
paged = record {
  config = config;
  outside = record outside { pulls = λ t owner name page. ok (pull_pages page) };
  fuel = 2;
}

tick_pages-Listing_example :
    tick_pages 2 (list_pulls paged repository) (tick_pull paged) 0 world
    ≡ (for_each (0 ∷ []) (look_at paged repository (tick_pull paged) pull_pages)
          >> emit (listed_pulls "mattermost" "mattermod" 2 (ok last_pulls)))
        world
tick_pages-Listing_example =
    tick_pages-Listing paged repository (tick_pull paged) pull_pages (λ t page. refl) 2 0 2 (0 ∷ [])
      world (Progress.page_before refl (Progress.last_page refl)) (omega arith)

-- GitHub has an error for every request for pull requests.
abbrev down : Server
down = record {
  config = config;
  outside = record outside { pulls = λ t owner name page. err (error "502 Bad Gateway") };
  fuel = 2;
}

tick_pages_stuck_example :
    (tick_pages 2 (list_pulls down repository) (tick_pull down) 0 world).0 ≡ unfinished
tick_pages_stuck_example =
    tick_pages_stuck down repository (tick_pull down) (error "502 Bad Gateway") 0 (λ t. refl) 2
      world

check_activity_of_lem_example :
    any (labels_with pr ("stale" ∷ [])) (check_activity_of server pr world).1.trace ≡ true
check_activity_of_lem_example =
    check_activity_of_lem server pr pull "open" 2000 3000000 [] world refl refl refl refl refl refl
