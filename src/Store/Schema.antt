-- ===== src/Store/Schema.antt =====
-- store/migrations/*.sql: the tables, and what each migration does to them and takes back.
pub mod Versions
pub mod Typing
pub mod Widths
use mattermost_mattermod.Base.{
  ℕ, ◌-◌, String, Bool, true, false, Option, none, some, List, [], ◌∷◌, ◌++◌, ◌==◌, ◌≡◌, any,
  if◌then◌else◌,
}

pub data Kind : Type 0 where
  varchar : ℕ → Kind
  text int bigint tinyint timestamp : Kind

pub record Column : Type 0 where
  pub name : String
  pub kind : Kind
  pub nullable : Bool

pub record Table : Type 0 where
  pub name : String
  pub columns : List Column
  pub primary_key : List String

abbrev required : String → Kind → Column
required n k = record { name = n; kind = k; nullable = false }

abbrev optional : String → Kind → Column
optional n k = record { name = n; kind = k; nullable = true }

-- 000001_base.up.sql
abbrev pub issues_table : Table
issues_table = record {
  name = "Issues";
  columns =
      required "RepoOwner" (Kind.varchar 128)
      ∷ required "RepoName" (Kind.varchar 128)
      ∷ required "Number" Kind.int
      ∷ optional "Username" (Kind.varchar 128)
      ∷ optional "State" (Kind.varchar 8)
      ∷ optional "Labels" Kind.text
      ∷ [];
  primary_key = "RepoOwner" ∷ "RepoName" ∷ "Number" ∷ [];
}

abbrev pub pull_requests_table : Table
pull_requests_table = record {
  name = "PullRequests";
  columns =
      required "RepoOwner" (Kind.varchar 128)
      ∷ required "RepoName" (Kind.varchar 128)
      ∷ optional "FullName" (Kind.varchar 2083)
      ∷ required "Number" Kind.int
      ∷ optional "Username" (Kind.varchar 128)
      ∷ optional "Ref" (Kind.varchar 128)
      ∷ optional "Sha" (Kind.varchar 48)
      ∷ optional "Labels" Kind.text
      ∷ optional "State" (Kind.varchar 8)
      ∷ optional "BuildStatus" (Kind.varchar 8)
      ∷ optional "BuildConclusion" (Kind.varchar 20)
      ∷ optional "BuildLink" Kind.text
      ∷ optional "URL" (Kind.varchar 2083)
      ∷ optional "CreatedAt" Kind.timestamp
      ∷ optional "MaintainerCanModify" Kind.tinyint
      ∷ optional "Merged" Kind.tinyint
      ∷ [];
  primary_key = "RepoOwner" ∷ "RepoName" ∷ "Number" ∷ [];
}

abbrev pub spinmint_table : Table
spinmint_table = record {
  name = "Spinmint";
  columns =
      required "InstanceId" (Kind.varchar 128)
      ∷ optional "RepoOwner" (Kind.varchar 255)
      ∷ optional "RepoName" (Kind.varchar 255)
      ∷ optional "Number" Kind.int
      ∷ optional "CreatedAt" Kind.bigint
      ∷ [];
  primary_key = "InstanceId" ∷ [];
}

-- 000002_add_milestone.up.sql
abbrev pub milestone_number : Column
milestone_number = optional "MilestoneNumber" Kind.int

abbrev pub milestone_title : Column
milestone_title = optional "MilestoneTitle" (Kind.varchar 255)

abbrev pub has_table : String → List Table → Bool
has_table n db = any (λ t. t.name == n) db

-- CREATE TABLE IF NOT EXISTS
unfoldable pub create_table : Table → List Table → List Table
create_table t db = if has_table t.name db then db else db ++ t ∷ []

-- DROP TABLE IF EXISTS
unfoldable pub drop_table : String → List Table → List Table
drop_table n [] = []
drop_table n (t ∷ db) = let rest = drop_table n db in if t.name == n then rest else t ∷ rest

abbrev pub has_column : String → List Column → Bool
has_column n cs = any (λ c. c.name == n) cs

-- The columns of the table change.
unfoldable pub alter_table : String → (List Column → List Column) → List Table → List Table
alter_table n f [] = []
alter_table n f (t ∷ db) =
    (if t.name == n then record t { columns = f t.columns } else t) ∷ alter_table n f db

unfoldable pub without_column : String → List Column → List Column
without_column n [] = []
without_column n (c ∷ cs) = let rest = without_column n cs in if c.name == n then rest else c ∷ rest

-- The columns of a table; none where it is not there.
unfoldable pub columns_of : String → List Table → List Column
columns_of n [] = []
columns_of n (t ∷ db) = if t.name == n then t.columns else columns_of n db

-- The prepared ALTER TABLE … ADD, where INFORMATION_SCHEMA does not have the column. It fails where
-- there is no such table.
unfoldable pub add_column : String → Column → List Table → Option (List Table)
unfolding columns_of alter_table
add_column n c db =
    if has_column c.name (columns_of n db)
    then some db
    else if has_table n db
    then some (alter_table n (λ cs. cs ++ c ∷ []) db)
    else none

-- The prepared ALTER TABLE … DROP, where INFORMATION_SCHEMA has the column.
unfoldable pub drop_column : String → String → List Table → List Table
unfolding columns_of alter_table without_column
drop_column n c db =
    if has_column c (columns_of n db) then alter_table n (without_column c) db else db

pub data Migration : Type 0 where
  base add_milestone drop_spinmint : Migration

-- The number that a migration's file names begin with, and the version in front of it.
abbrev pub number : Migration → ℕ
number base = 1
number add_milestone = 2
number drop_spinmint = 3

abbrev pub before : Migration → ℕ
before m = number m - 1

-- The up files.
unfoldable pub up : Migration → List Table → Option (List Table)
unfolding create_table add_column drop_table
up base db =
    some (
      create_table spinmint_table (create_table pull_requests_table (create_table issues_table db)))
up add_milestone db = elim (add_column "PullRequests" milestone_number db) [
  | none ↦ none
  | some db' ↦ add_column "PullRequests" milestone_title db'
]
up drop_spinmint db = some (drop_table "Spinmint" db)

-- The down files.
unfoldable pub down : Migration → List Table → List Table
unfolding create_table drop_column drop_table
down base db = drop_table "Spinmint" (drop_table "PullRequests" (drop_table "Issues" db))
down add_milestone db =
    drop_column "PullRequests" "MilestoneTitle" (drop_column "PullRequests" "MilestoneNumber" db)
down drop_spinmint db = create_table spinmint_table db

-- The tables that the program's database can have at a version: from an empty database, migrations
-- are run up and down in the order of their numbers, and one that was run may be run up again, as
-- after a version that could not be recorded.
pub data Reached : ℕ → List Table → Type 0 where
  start : Reached 0 []
  upwards :
      {db db' : List Table} (m : Migration)
      → Reached (before m) db
      → up m db ≡ some db'
      → Reached (number m) db'
  downwards :
      {db : List Table} (m : Migration) → Reached (number m) db → Reached (before m) (down m db)
  again :
      {db db' : List Table} (m : Migration)
      → Reached (number m) db
      → up m db ≡ some db'
      → Reached (number m) db'
