-- ===== src/Tests/Migrating.antt =====
-- The migrations and the columns: runs of their theorems.
use mattermost_mattermod.Base.{
  ◌≡◌, ◌≢◌, true, false, refl, Option, none, some, List, [], ◌∷◌, arith, is_some, if◌then◌else◌,
}
use mattermost_mattermod.Model.{PullRequest, pr_key, key_eq}
use mattermost_mattermod.World.{Event, Statement, update_pr}
use mattermost_mattermod.World.Github.{Error, ok, CheckRun}
use mattermost_mattermod.World.Monad.{Server, returned, error}
use mattermost_mattermod.World.Config.{get_repository}
use mattermost_mattermod.Store.PullRequests.{find}
use mattermost_mattermod.Store.Schema.{
  Table, Migration, up, down, create_table, add_column, columns_of, alter_table, drop_table,
  without_column, drop_column, Reached,
}
use mattermost_mattermod.Store.Schema.Typing.{
  well_typed, pull_request_statements, issue_statements, Reached-well_typed,
}
use mattermost_mattermod.Store.Schema.Widths.{row_fits}
use mattermost_mattermod.Server.Fetch.{pull_request_of, get_pull_request_from_github}
use mattermost_mattermod.Server.Fetch.TooLong.{run_status, get_pull_request_from_github_too_long}
use mattermost_mattermod.Tests.{outside, config, repository, world, pr, pull}

-- The first migration up, down and up, then the others, and the last down and up again.
pub migrated : (db : List Table) × Reached 3 db
unfolding up down create_table add_column columns_of alter_table drop_table drop_column
    without_column
migrated = (
  _,
  Reached.again Migration.drop_spinmint
      (Reached.upwards Migration.drop_spinmint
        (Reached.downwards Migration.drop_spinmint (
          Reached.upwards Migration.drop_spinmint
            (Reached.upwards Migration.add_milestone
              (Reached.upwards Migration.base
                (Reached.downwards Migration.base
                  (Reached.upwards Migration.base Reached.start refl))
                refl)
              refl)
            refl))
        refl)
      refl,
)

Reached-well_typed_example :
    (well_typed migrated.0 pull_request_statements ≡ true)
    × (well_typed migrated.0 issue_statements ≡ true)
Reached-well_typed_example = Reached-well_typed (omega arith) migrated.1

-- A check run that has ended, and a database that is strict about its columns.
abbrev ended : CheckRun
ended = record {
  name = "ci/build";
  status = "completed";
  conclusion = "success";
  html_url = "https://example.com/run";
}

abbrev strict_update : Statement → Option Error
strict_update (update_pr row) =
    if row_fits row then none else some (error "Error 1406: Data too long for column 'BuildStatus'")
strict_update st = none

abbrev strict : Server
strict = record {
  config = config;
  outside = record outside {
    check_runs = λ t owner name sha. ok (ended ∷ []);
    statement = λ t st. strict_update st;
  };
  fuel = 2;
}

ended-status :
    (t : List Event) (runs : List CheckRun)
    → strict.outside.check_runs t "mattermost" "mattermod" "abc" ≡ ok runs
    → run_status "ci/build" runs ≡ some "completed"
unfolding run_status
ended-status t runs e = ground arith

strict_refuses :
    (t : List Event) (row : PullRequest)
    → pr_key row ≡ pr_key (pull_request_of pull)
    → row_fits row ≡ false
    → is_some (strict.outside.statement t (update_pr row)) ≡ true
strict_refuses t row e h = rw h refl

get_pull_request_from_github_too_long_example :
    (get_pull_request_from_github strict pull "synchronize" world).0 ≢ returned (ok pr)
unfolding find key_eq pull_request_of get_repository
get_pull_request_from_github_too_long_example =
    get_pull_request_from_github_too_long strict pull "synchronize" repository pr pr world refl refl
      refl ended-status strict_refuses
