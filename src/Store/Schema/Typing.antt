-- ===== src/Store/Schema/Typing.antt =====
-- store/sql_pull_request_store.go and store/sql_issue_store.go: the columns and the named arguments of
-- their statements, against the tables and the fields of package model. sqlx binds an argument `:X`
-- to the field X, and gives an error for a column of a `SELECT *` that has no field.
use mattermost_mattermod.Base.{
  ℕ, ◌≤◌, String, Bool, true, false, not, ◌&&◌, ◌||◌, List, [], ◌∷◌, ◌++◌, ◌==◌, ◌≡◌, refl, any,
  all, mem, arith, if◌then◌else◌, ap, sym, nat_eq, Bool-cases, inl, inr,
}
use mathlib.Core.Path.{subst}
use mattermost_mattermod.Store.Schema.{Kind, Column, Table, columns_of, Reached, has_table}
use mattermost_mattermod.Store.Schema.Versions.{schema, Reached-schema}

-- The types of the fields of package model.
pub data FieldType : Type 0 where
  string integer time string_array : FieldType
  pointer : FieldType → FieldType
  boolean : FieldType

pub record Field : Type 0 where
  pub name : String
  pub type : FieldType

abbrev field : String → FieldType → Field
field n t = record { name = n; type = t }

-- model.PullRequest; MergeCommitSHA is not mapped.
abbrev pub pull_request_fields : List Field
pull_request_fields =
    field "Merged" (FieldType.pointer FieldType.boolean)
    ∷ field "MaintainerCanModify" (FieldType.pointer FieldType.boolean)
    ∷ field "MilestoneNumber" (FieldType.pointer FieldType.integer)
    ∷ field "MilestoneTitle" (FieldType.pointer FieldType.string)
    ∷ field "CreatedAt" FieldType.time
    ∷ field "RepoOwner" FieldType.string
    ∷ field "RepoName" FieldType.string
    ∷ field "FullName" FieldType.string
    ∷ field "Username" FieldType.string
    ∷ field "Ref" FieldType.string
    ∷ field "Sha" FieldType.string
    ∷ field "State" FieldType.string
    ∷ field "BuildStatus" FieldType.string
    ∷ field "BuildConclusion" FieldType.string
    ∷ field "BuildLink" FieldType.string
    ∷ field "URL" FieldType.string
    ∷ field "Labels" FieldType.string_array
    ∷ field "Number" FieldType.integer
    ∷ []

-- model.Issue
abbrev pub issue_fields : List Field
issue_fields =
    field "RepoOwner" FieldType.string
    ∷ field "RepoName" FieldType.string
    ∷ field "Username" FieldType.string
    ∷ field "State" FieldType.string
    ∷ field "Labels" FieldType.string_array
    ∷ field "Number" FieldType.integer
    ∷ []

-- The statements of a store: the columns that INSERT names, those that UPDATE sets, and those of the
-- WHERE clauses of UPDATE and of Get, which SELECT * from the table.
pub record Statements : Type 0 where
  pub table : String
  pub fields : List Field
  pub inserted : List String
  pub updated : List String
  pub update_where : List String
  pub select_where : List String

abbrev pub key_columns : List String
key_columns = "RepoOwner" ∷ "RepoName" ∷ "Number" ∷ []

-- SQLPullRequestStore
abbrev pub pull_request_statements : Statements
pull_request_statements = record {
  table = "PullRequests";
  fields = pull_request_fields;
  inserted =
      "RepoOwner" ∷ "RepoName" ∷ "FullName" ∷ "Number" ∷ "Username" ∷ "Ref" ∷ "Sha" ∷ "Labels"
      ∷ "State" ∷ "BuildStatus" ∷ "BuildConclusion" ∷ "BuildLink" ∷ "URL" ∷ "CreatedAt"
      ∷ "MaintainerCanModify" ∷ "Merged" ∷ [];
  updated =
      "FullName" ∷ "Username" ∷ "Ref" ∷ "Sha" ∷ "Labels" ∷ "State" ∷ "BuildStatus"
      ∷ "BuildConclusion" ∷ "BuildLink" ∷ "URL" ∷ "CreatedAt" ∷ "MaintainerCanModify" ∷ "Merged"
      ∷ [];
  update_where = key_columns;
  select_where = key_columns;
}

-- SQLIssueStore
abbrev pub issue_statements : Statements
issue_statements = record {
  table = "Issues";
  fields = issue_fields;
  inserted = "RepoOwner" ∷ "RepoName" ∷ "Number" ∷ "Username" ∷ "State" ∷ "Labels" ∷ [];
  updated = "Username" ∷ "State" ∷ "Labels" ∷ [];
  update_where = key_columns;
  select_where = key_columns;
}

-- Does a column of the kind keep values of the type?
unfoldable pub keeps : Kind → FieldType → Bool
keeps (Kind.varchar n) FieldType.string = true
keeps Kind.text FieldType.string = true
keeps Kind.text FieldType.string_array = true
keeps Kind.int FieldType.integer = true
keeps Kind.tinyint FieldType.boolean = true
keeps Kind.timestamp FieldType.time = true
keeps k (FieldType.pointer t) = keeps k t
keeps k t = false

abbrev is_pointer : FieldType → Bool
is_pointer (FieldType.pointer t) = true
is_pointer FieldType.string = false
is_pointer FieldType.integer = false
is_pointer FieldType.time = false
is_pointer FieldType.string_array = false
is_pointer FieldType.boolean = false

-- There is a column of the name and a field of the name, and the column keeps its values.
unfoldable pub binds : List Column → List Field → String → Bool
unfolding keeps
binds columns fields n =
    any (λ c. c.name == n && any (λ f. f.name == n && keeps c.kind f.type) fields) columns

-- There is a field for the column, which takes NULL if the column can have it: a column that INSERT
-- names has it only for a pointer.
unfoldable pub scans : List Field → List String → Column → Bool
unfolding keeps
scans fields inserted c =
    any
      (λ f.
        f.name == c.name
        && keeps c.kind f.type
        && (not c.nullable || mem c.name inserted || is_pointer f.type))
      fields

-- The names are those of the primary key.
unfoldable pub names_key : String → List Table → List String → Bool
names_key n [] ks = false
names_key n (t ∷ db) ks =
    if t.name == n
    then all (λ k. mem k ks) t.primary_key && all (λ k. mem k t.primary_key) ks
    else names_key n db ks

-- The statements name columns that there are, and fields that fit them; INSERT gives each column
-- that must have a value; UPDATE and Get pick a row by the primary key; and a row can be read.
unfoldable pub well_typed : List Table → Statements → Bool
unfolding columns_of binds scans names_key
well_typed db st =
    let columns = columns_of st.table db in
    has_table st.table db
    && all (binds columns st.fields)
        (st.inserted ++ st.updated ++ st.update_where ++ st.select_where)
    && all (λ c. c.nullable || mem c.name st.inserted) columns
    && names_key st.table db st.update_where
    && names_key st.table db st.select_where
    && all (scans st.fields st.inserted) columns

-- SQLStore.DropAllTables: the tables whose TRUNCATE fails, as there is no such table.
unfoldable pub drop_all_tables : List Table → List String
drop_all_tables db = failing ("Issues" ∷ "PullRequests" ∷ "Spinmint" ∷ [])
  where
    failing : List String → List String
    failing [] = []
    failing (t ∷ ts) = if has_table t db then failing ts else t ∷ failing ts

well_typed_at :
    (n : ℕ)
    → 1 ≤ n
    → (well_typed (schema n) pull_request_statements ≡ true)
      × (well_typed (schema n) issue_statements ≡ true)
unfolding well_typed columns_of binds scans names_key keeps
well_typed_at n h = elim (Bool-cases (nat_eq n 0)) [
  | inl zero ↦ absurd (ground arith)
  | inr positive ↦ elim (Bool-cases (nat_eq n 1)) [
    | inl first ↦ rw (positive, first) (refl, refl)
    | inr later ↦ elim (Bool-cases (nat_eq n 2)) [
      | inl second ↦ rw (positive, later, second) (refl, refl)
      | inr last ↦ rw (positive, later, last) (refl, refl)
    ]
  ]
]

-- At every version from the first on, however the migrations were run, the statements of the two
-- stores are well typed: the columns that they name are there and keep the fields that are bound to
-- them, no required column is left out, rows are picked by the primary key, and `SELECT *` gives no
-- column and no NULL that has no place in the struct.
pub Reached-well_typed :
    {n : ℕ} {db : List Table}
    → 1 ≤ n
    → Reached n db
    → (well_typed db pull_request_statements ≡ true) × (well_typed db issue_statements ≡ true)
Reached-well_typed {n} h r =
    subst
      (λ db.
        (well_typed db pull_request_statements ≡ true) × (well_typed db issue_statements ≡ true))
      (sym (Reached-schema r)) (well_typed_at n h)

-- After the third migration DropAllTables fails for one of its three tables, however the migrations
-- were run.
pub Reached-drop_all_tables :
    {db : List Table} → Reached 3 db → drop_all_tables db ≡ "Spinmint" ∷ []
unfolding drop_all_tables
Reached-drop_all_tables r = ap drop_all_tables (Reached-schema r)
