-- ===== src/Tests/Starting.antt =====
-- The start of the programs: runs of its theorems.
use mattermost_mattermod.Base.{
  ℕ, String, true, false, ◌≡◌, ◌⊎◌, refl, arith, none, nat_eq, if◌then◌else◌,
}
use mathlib.Core.Path.{subst}
use mattermost_mattermod.World.Github.{ok}
use mattermost_mattermod.Store.Schema.{Reached}
use mattermost_mattermod.Store.Schema.Typing.{well_typed, pull_request_statements, issue_statements}
use mattermost_mattermod.Program.Startup.{
  pos, Settings, Migrated, Machine, mattermod_main, jobserver_main, migrator_main, get_config,
  start_server, new_server, new_sql_store, init_connection, new_mutex_store, run_migrations,
  or_exit, or_return, and_then, up_error, find_config_file, decoded, migrate_or_refuse,
  migrator_run_migrations, migrate_to, migrate_error, exit_status,
}
use mattermost_mattermod.Server.Transport.{new_github_client}
use mattermost_mattermod.Program.Startup.Outcomes.{Agree, mattermod_main-Agree}
use mattermost_mattermod.Program.Startup.Database.{
  Migrates, AtVersion, mattermod_main-well_typed, migrator_main-AtVersion,
}
use mattermost_mattermod.Tests.Migrating.{migrated}

abbrev settings : Settings
settings = record {
  driver_name = "mysql";
  data_source = "mattermod@tcp(mysql:3306)/mattermod";
  github_token_reserve = 10;
}

abbrev config_file : String
config_file = "config-mattermod.json"

-- A machine on which everything works.
abbrev machine : Machine
machine = record {
  stat = λ path. false;
  abs = λ path. path;
  open_file = λ path. ok "{}";
  decode = λ text. ok settings;
  configure_logging = λ config. none;
  open_db = λ driver source. none;
  ping = λ driver source. none;
  conn = none;
  create_lock_table = none;
  migration_driver = none;
  migration_source = none;
  migration_instance = none;
  up = Migrated.migrated;
  tables_after_up = migrated.0;
  migrate = λ n. if nat_eq n 3 then Migrated.migrated else Migrated.not_exist;
  tables_after_migrate = λ n. migrated.0;
}

machine_at_version :
    (n : ℕ)
    → (machine.migrate n ≡ Migrated.migrated) ⊎ (machine.migrate n ≡ Migrated.no_change)
    → Reached n (machine.tables_after_migrate n)
machine_at_version n h = subst (λ k. Reached k migrated.0) (the_last n h) migrated.1
  where
    the_last :
        (n : ℕ)
        → (machine.migrate n ≡ Migrated.migrated) ⊎ (machine.migrate n ≡ Migrated.no_change)
        → 3 ≡ n
    the_last n h = ground arith

machine-Migrates : Migrates machine
machine-Migrates = record { up_reaches = λ h. migrated.1; migrate_reaches = machine_at_version }

mattermod_main-Agree_example :
    Agree (mattermod_main machine config_file) (jobserver_main machine config_file)
mattermod_main-Agree_example = mattermod_main-Agree machine config_file

mattermod_main-well_typed_example :
    (well_typed machine.tables_after_up pull_request_statements ≡ true)
    × (well_typed machine.tables_after_up issue_statements ≡ true)
unfolding mattermod_main get_config start_server new_server new_sql_store init_connection
    new_mutex_store run_migrations or_exit or_return and_then up_error find_config_file decoded
    new_github_client
mattermod_main-well_typed_example =
    mattermod_main-well_typed machine config_file settings machine-Migrates (λ same. ground arith)
      refl

migrator_main-AtVersion_example : AtVersion machine (pos 3)
unfolding migrator_main get_config migrate_or_refuse migrator_run_migrations migrate_to
    migrate_error or_return exit_status find_config_file decoded
migrator_main-AtVersion_example =
    migrator_main-AtVersion machine config_file (pos 3) machine-Migrates refl
