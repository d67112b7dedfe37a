-- ===== src/Store/Schema/Widths.antt =====
-- store/migrations/000001_base.up.sql: which texts the columns of PullRequests have room for.
use Prim.Native.String.{count, len}
use mattermost_mattermod.Base.{String, Bool, false, not, ◌||◌, some, List, [], ◌∷◌, ◌==◌, all, leb}
use mattermost_mattermod.Base.Json.{marshal}
use mattermost_mattermod.Model.{PullRequest}
use mattermost_mattermod.Store.Schema.{Kind, pull_requests_table}

-- A VARCHAR is measured in characters, a TEXT in bytes; there are no texts in other columns.
unfoldable pub has_room : Kind → String → Bool
has_room (Kind.varchar n) s = leb (count s) n
has_room Kind.text s = leb (len s) 65535
has_room Kind.int s = false
has_room Kind.bigint s = false
has_room Kind.tinyint s = false
has_room Kind.timestamp s = false

unfoldable pub column_has_room : String × String → Bool
unfolding has_room
column_has_room entry =
    all (λ c. not (c.name == entry.0) || has_room c.kind entry.1) pull_requests_table.columns

-- The texts of a pull request, each with the column that it goes to.
unfoldable pub texts_of : PullRequest → List (String × String)
unfolding marshal
texts_of pr =
    ("BuildStatus", pr.build_status)
    ∷ ("RepoOwner", pr.repo_owner)
    ∷ ("RepoName", pr.repo_name)
    ∷ ("FullName", pr.full_name)
    ∷ ("Username", pr.username)
    ∷ ("Ref", pr.ref)
    ∷ ("Sha", pr.sha)
    ∷ ("Labels", marshal (some pr.labels))
    ∷ ("State", pr.state)
    ∷ ("BuildConclusion", pr.build_conclusion)
    ∷ ("BuildLink", pr.build_link)
    ∷ ("URL", pr.url)
    ∷ []

unfoldable pub row_fits : PullRequest → Bool
unfolding column_has_room texts_of
row_fits pr = all column_has_room (texts_of pr)
