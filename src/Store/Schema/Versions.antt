-- ===== src/Store/Schema/Versions.antt =====
-- store/migrations/*.sql: what a database has at each version.
use mattermost_mattermod.Base.{
  ℕ, some, List, [], ◌∷◌, ◌++◌, ◌≡◌, refl, sym, ap, ◌∙◌, nat_eq, if◌then◌else◌,
}
use mathlib.Core.Option.{some-injective}
use mattermost_mattermod.Store.Schema.{
  Table, issues_table, pull_requests_table, spinmint_table, milestone_number, milestone_title,
  create_table, drop_table, add_column, drop_column, alter_table, columns_of, without_column,
  Migration, number, before, up, down, Reached,
}
use Migration.{base, add_milestone, drop_spinmint}
use Reached.{start, upwards, downwards, again}

-- The table with the columns of the second migration.
abbrev pub with_milestone : Table
with_milestone = record pull_requests_table {
  columns = pull_requests_table.columns ++ milestone_number ∷ milestone_title ∷ [];
}

-- The tables at a version.
abbrev pub schema : ℕ → List Table
schema n =
    if nat_eq n 0
    then []
    else if nat_eq n 1
    then issues_table ∷ pull_requests_table ∷ spinmint_table ∷ []
    else if nat_eq n 2
    then issues_table ∷ with_milestone ∷ spinmint_table ∷ []
    else issues_table ∷ with_milestone ∷ []

up-schema : (m : Migration) → up m (schema (before m)) ≡ some (schema (number m))
unfolding up create_table add_column columns_of alter_table drop_table
up-schema base = refl
up-schema add_milestone = refl
up-schema drop_spinmint = refl

down-schema : (m : Migration) → down m (schema (number m)) ≡ schema (before m)
unfolding down create_table drop_column columns_of alter_table drop_table without_column
down-schema base = refl
down-schema add_milestone = refl
down-schema drop_spinmint = refl

up-schema_again : (m : Migration) → up m (schema (number m)) ≡ some (schema (number m))
unfolding up create_table add_column columns_of alter_table drop_table
up-schema_again base = refl
up-schema_again add_milestone = refl
up-schema_again drop_spinmint = refl

-- What a migration makes of the tables of a version.
up_from :
    (m : Migration) (n : ℕ) {db db' : List Table}
    → db ≡ schema n
    → up m (schema n) ≡ some (schema (number m))
    → up m db ≡ some db'
    → db' ≡ schema (number m)
up_from m n e h g = some-injective _ _ (sym g ∙ ap (up m) e ∙ h)

-- However migrations are run up, down and up again: the tables at a version are those of the version,
-- so that each down file takes back what its up file does, and an up file that is run twice does no
-- more.
pub Reached-schema : {n : ℕ} {db : List Table} → Reached n db → db ≡ schema n
Reached-schema start = refl
Reached-schema (upwards m r e) = up_from m (before m) (Reached-schema r) (up-schema m) e
Reached-schema (downwards m r) = ap (down m) (Reached-schema r) ∙ down-schema m
Reached-schema (again m r e) = up_from m (number m) (Reached-schema r) (up-schema_again m) e
