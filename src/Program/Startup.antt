-- ===== src/Program/Startup.antt =====
-- How the three programs start: main of cmd/mattermost-mattermod, of cmd/jobserver and of
-- cmd/migrator, with GetConfig of server/config.go, New of server/server.go, and NewSQLStore and
-- runMigrations of store/sql_store.go. The machine and the packages that are called are parameters.
pub mod Database
pub mod Outcomes
use mattermost_mattermod.Base.{ℕ, zero, suc, String, Bool, Option, none, some, List, if◌then◌else◌}
use mattermost_mattermod.Base.Text.{◌+++◌}
use mattermost_mattermod.World.Github.{Error, Result, ok, err}
use mattermost_mattermod.World.Monad.{error, wrap}
use mattermost_mattermod.Server.Transport.{new_github_client}
use mattermost_mattermod.Store.Schema.{Table}

-- Go's int.
pub data ℤ : Type 0 where
  pos negsuc : ℕ → ℤ

-- The settings that are read while a process starts. A negative reserve of tokens is refused as 0 is.
pub record Settings : Type 0 where
  pub driver_name : String
  pub data_source : String
  pub github_token_reserve : ℕ

-- What golang-migrate gives: nil, ErrNoChange, an error that is os.ErrNotExist, or another.
pub data Migrated : Type 0 where
  migrated no_change not_exist : Migrated
  failed : Error → Migrated

-- The answers of the machine, of the decoder, of the logging library, of the database driver and of
-- golang-migrate, and the tables that the latter leaves.
pub record Machine : Type 0 where
  pub stat : String → Bool
  pub abs : String → String
  pub open_file : String → Result String
  pub decode : String → Result Settings
  pub configure_logging : Settings → Option Error
  pub open_db : String → String → Option Error
  pub ping : String → String → Option Error
  pub conn : Option Error
  pub create_lock_table : Option Error
  pub migration_driver : Option Error
  pub migration_source : Option Error
  pub migration_instance : Option Error
  pub up : Migrated
  pub tables_after_up : List Table
  pub migrate : ℕ → Migrated
  pub tables_after_migrate : ℕ → List Table

-- findConfigFile
unfoldable pub find_config_file : Machine → String → String
find_config_file m file_name =
    if m.stat ("/tmp/" +++ file_name)
    then m.abs ("/tmp/" +++ file_name)
    else if m.stat ("./config/" +++ file_name)
    then m.abs ("./config/" +++ file_name)
    else if m.stat ("../config/" +++ file_name)
    then m.abs ("../config/" +++ file_name)
    else if m.stat file_name
    then m.abs file_name
    else file_name

unfoldable pub decoded : Result Settings → Result Settings
decoded (ok config) = ok config
decoded (err e) = err (wrap "unable to decode config file" e)

-- GetConfig
unfoldable pub get_config : Machine → String → Result Settings
unfolding find_config_file decoded
get_config m file_name = elim (m.open_file (find_config_file m file_name)) [
  | err e ↦ err (wrap "unable to open config file" e)
  | ok file ↦ decoded (m.decode file)
]

-- What a part of the start ends with: it is done, it gives its error back, or it ends the process.
pub data Start : Type 0 where
  done : Start
  gives : Error → Start
  exits : ℕ → Start

-- `if err != nil { os.Exit(status) }`
unfoldable pub or_exit : Option Error → ℕ → Start → Start
or_exit none status next = next
or_exit (some e) status next = Start.exits status

-- `if err != nil { return err }`
unfoldable pub or_return : Option Error → Start → Start
or_return none next = next
or_return (some e) next = Start.gives e

-- One part, and then the next.
unfoldable pub and_then : Start → Start → Start
and_then Start.done next = next
and_then (Start.gives e) next = Start.gives e
and_then (Start.exits status) next = Start.exits status

-- initConnection
unfoldable pub init_connection : Machine → Settings → Start
unfolding or_exit
init_connection m config =
    or_exit (m.open_db config.driver_name config.data_source) 101
      (or_exit (m.ping config.driver_name config.data_source) 102 Start.done)

-- NewMutexStore
unfoldable pub new_mutex_store : Machine → Start
unfolding or_return
new_mutex_store m = or_return m.conn (or_return m.create_lock_table Start.done)

-- The error of Up, where it is not ignored.
unfoldable pub up_error : Migrated → Option Error
up_error Migrated.migrated = none
up_error Migrated.no_change = none
up_error Migrated.not_exist = none
up_error (Migrated.failed e) = some e

-- runMigrations of package store.
unfoldable pub run_migrations : Machine → Start
unfolding or_exit up_error
run_migrations m = or_exit m.migration_driver 1 (
    or_exit m.migration_source 1
      (or_exit m.migration_instance 1 (or_exit (up_error m.up) 1 Start.done)))

-- NewSQLStore
unfoldable pub new_sql_store : Machine → Settings → Start
unfolding and_then init_connection new_mutex_store run_migrations
new_sql_store m config =
    and_then (init_connection m config) (and_then (new_mutex_store m) (run_migrations m))

-- The parts of New that may fail.
unfoldable pub new_server : Machine → Settings → Start
unfolding new_github_client new_sql_store
new_server m config = elim (new_github_client config.github_token_reserve) [
  | err e ↦ Start.gives e
  | ok limiter ↦ new_sql_store m config
]

-- What becomes of a process: it goes on with its settings, or it ends with a status.
pub data Process : Type 0 where
  runs : Settings → Process
  exited : ℕ → Process

-- main after the configuration, where it ends with the status on an error.
unfoldable pub start_server : Machine → ℕ → Settings → Process
unfolding new_server
start_server m status config = elim (m.configure_logging config) [
  | some e ↦ Process.exited status
  | none ↦ elim (new_server m config) [
    | Start.done ↦ Process.runs config
    | Start.gives e ↦ Process.exited status
    | Start.exits n ↦ Process.exited n
  ]
]

-- main of cmd/mattermost-mattermod: it returns on an error, so the status is 0.
unfoldable pub mattermod_main : Machine → String → Process
unfolding get_config start_server
mattermod_main m config_file = elim (get_config m config_file) [
  | err e ↦ Process.exited 0
  | ok config ↦ start_server m 0 config
]

-- main of cmd/jobserver.
unfoldable pub jobserver_main : Machine → String → Process
unfolding get_config start_server
jobserver_main m config_file = elim (get_config m config_file) [
  | err e ↦ Process.exited 1
  | ok config ↦ start_server m 1 config
]

-- The last part of runMigrations of cmd/migrator, which ignores ErrNoChange only.
unfoldable pub migrate_error : Migrated → Option Error
migrate_error Migrated.migrated = none
migrate_error Migrated.no_change = none
migrate_error Migrated.not_exist = some (error "file does not exist")
migrate_error (Migrated.failed e) = some e

-- runMigrations of cmd/migrator to a version above 0.
unfoldable pub migrate_to : Machine → Settings → ℕ → Start
unfolding or_return migrate_error
migrate_to m config version = or_return (m.open_db config.driver_name config.data_source) (
    or_return m.migration_driver (
      or_return m.migration_source (
        or_return m.migration_instance (or_return (migrate_error (m.migrate version)) Start.done))))

-- runMigrations of cmd/migrator.
unfoldable pub migrator_run_migrations : Machine → Settings → ℤ → Start
unfolding migrate_to
migrator_run_migrations m config (pos zero) = Start.gives (error "invalid migration version: 0")
migrator_run_migrations m config (pos (suc n)) = migrate_to m config (suc n)
migrator_run_migrations m config (negsuc n) = Start.gives (error "invalid migration version")

-- The status of an end.
unfoldable pub exit_status : Start → ℕ
exit_status Start.done = 0
exit_status (Start.gives e) = 1
exit_status (Start.exits n) = n

-- The part of the migrator's main behind the logging: -1 is the flag that was not set.
unfoldable pub migrate_or_refuse : Machine → Settings → ℤ → ℕ
unfolding migrator_run_migrations exit_status
migrate_or_refuse m config (negsuc zero) = 1
migrate_or_refuse m config (negsuc (suc n)) =
    exit_status (migrator_run_migrations m config (negsuc (suc n)))
migrate_or_refuse m config (pos n) = exit_status (migrator_run_migrations m config (pos n))

-- main of cmd/migrator: the status that it exits with.
unfoldable pub migrator_main : Machine → String → ℤ → ℕ
unfolding get_config migrate_or_refuse
migrator_main m config_file version = elim (get_config m config_file) [
  | err e ↦ 1
  | ok config ↦ elim (m.configure_logging config) [
    | some e ↦ 1
    | none ↦ migrate_or_refuse m config version
  ]
]
