-- ===== src/Program/Startup/Database.antt =====
-- How the programs start: what the database has when they go on.
use mattermost_mattermod.Base.{
  ℕ, zero, suc, String, true, Option, none, some, ◌≡◌, ◌≢◌, ◌⊎◌, inl, inr, refl, arith,
  Option-cases,
}
use mattermost_mattermod.World.Github.{Error, Result-cases}
use mattermost_mattermod.Server.Transport.{new_github_client}
use mattermost_mattermod.Store.Schema.{Reached}
use mattermost_mattermod.Store.Schema.Typing.{
  well_typed, pull_request_statements, issue_statements, Reached-well_typed,
}
use mattermost_mattermod.Program.Startup.{
  ℤ, pos, negsuc, Settings, Migrated, Machine, Start, Process, get_config, or_exit, or_return,
  and_then, init_connection, new_mutex_store, up_error, run_migrations, new_sql_store, new_server,
  start_server, mattermod_main, migrator_main, migrate_error, migrate_to, migrate_or_refuse,
  migrator_run_migrations, exit_status,
}

-- What golang-migrate says of its Up and its Migrate: without an error, or with ErrNoChange, the
-- database has the last version, or the one that was asked for.
pub record Migrates (m : Machine) : Type 0 where
  pub up_reaches :
      (m.up ≡ Migrated.migrated) ⊎ (m.up ≡ Migrated.no_change) → Reached 3 m.tables_after_up
  pub migrate_reaches :
      (n : ℕ)
      → (m.migrate n ≡ Migrated.migrated) ⊎ (m.migrate n ≡ Migrated.no_change)
      → Reached n (m.tables_after_migrate n)

Migrated-cases :
    (r : Migrated)
    → ((r ≡ Migrated.migrated) ⊎ (r ≡ Migrated.no_change))
      ⊎ (r ≡ Migrated.not_exist)
      ⊎ ((e : Error) × (r ≡ Migrated.failed e))
Migrated-cases Migrated.migrated = inl (inl refl)
Migrated-cases Migrated.no_change = inl (inr refl)
Migrated-cases Migrated.not_exist = inr (inl refl)
Migrated-cases (Migrated.failed e) = inr (inr (e, refl))

or_exit-done :
    (o : Option Error) (status : ℕ) (next : Start)
    → or_exit o status next ≡ Start.done
    → (o ≡ none) × (next ≡ Start.done)
unfolding or_exit
or_exit-done none status next e = (refl, e)
or_exit-done (some x) status next e = absurd (ground arith)

or_return-done :
    (o : Option Error) (next : Start)
    → or_return o next ≡ Start.done
    → (o ≡ none) × (next ≡ Start.done)
unfolding or_return
or_return-done none next e = (refl, e)
or_return-done (some x) next e = absurd (ground arith)

and_then-done : (s next : Start) → and_then s next ≡ Start.done → next ≡ Start.done
unfolding and_then
and_then-done Start.done next e = e
and_then-done (Start.gives x) next e = absurd (ground arith)
and_then-done (Start.exits n) next e = absurd (ground arith)

run_migrations-done : (m : Machine) → run_migrations m ≡ Start.done → up_error m.up ≡ none
unfolding run_migrations
run_migrations-done m e =
    let (driver, e₁) = or_exit-done m.migration_driver 1 _ e in
    let (source, e₂) = or_exit-done m.migration_source 1 _ e₁ in
    let (instance_, e₃) = or_exit-done m.migration_instance 1 _ e₂ in
    (or_exit-done (up_error m.up) 1 Start.done e₃).0

new_server-done :
    (m : Machine) (config : Settings) → new_server m config ≡ Start.done → up_error m.up ≡ none
unfolding new_server new_sql_store
new_server-done m config e = elim (Result-cases (new_github_client config.github_token_reserve)) [
  | inr (x, q) ↦ absurd (ground arith)
  | inl (limiter, q) ↦
      let made : new_sql_store m config ≡ Start.done = ground arith in
      run_migrations-done m (
        and_then-done (new_mutex_store m) (run_migrations m)
          (and_then-done (init_connection m config) _ made))
]

start_server-runs :
    (m : Machine) (status : ℕ) (read config : Settings)
    → start_server m status read ≡ Process.runs config
    → new_server m read ≡ Start.done
unfolding start_server
start_server-runs m status read config e = ground arith

-- When the server goes on after its start, and the database was not of a newer version of the
-- program, the statements of both stores are well typed in it.
pub mattermod_main-well_typed :
    (m : Machine) (config_file : String) (config : Settings)
    → Migrates m
    → m.up ≢ Migrated.not_exist
    → mattermod_main m config_file ≡ Process.runs config
    → (well_typed m.tables_after_up pull_request_statements ≡ true)
      × (well_typed m.tables_after_up issue_statements ≡ true)
unfolding mattermod_main up_error
mattermod_main-well_typed m config_file config migrates known e =
    elim (Result-cases (get_config m config_file)) [
      | inr (x, q) ↦ absurd (ground arith)
      | inl (read, q) ↦
          let started : start_server m 0 read ≡ Process.runs config = ground arith in
          let up = new_server-done m read (start_server-runs m 0 read config started) in
          elim (Migrated-cases m.up) [
            | inl reached ↦ Reached-well_typed (omega arith) (migrates.up_reaches reached)
            | inr (inl newer) ↦ absurd (known newer)
            | inr (inr (x, failed)) ↦ absurd (ground arith)
          ]
    ]

migrate_to-done :
    (m : Machine) (config : Settings) (n : ℕ)
    → Migrates m
    → migrate_to m config n ≡ Start.done
    → Reached n (m.tables_after_migrate n)
unfolding migrate_to migrate_error
migrate_to-done m config n migrates e =
    let (opened, e₁) = or_return-done (m.open_db config.driver_name config.data_source) _ e in
    let (driver, e₂) = or_return-done m.migration_driver _ e₁ in
    let (source, e₃) = or_return-done m.migration_source _ e₂ in
    let (instance_, e₄) = or_return-done m.migration_instance _ e₃ in
    let moved = (or_return-done (migrate_error (m.migrate n)) Start.done e₄).0 in
    elim (Migrated-cases (m.migrate n)) [
      | inl reached ↦ migrates.migrate_reaches n reached
      | inr (inl missing) ↦ absurd (ground arith)
      | inr (inr (x, failed)) ↦ absurd (ground arith)
    ]

exit_status-zero :
    (s : Start) → ((n : ℕ) → s ≡ Start.exits n → ⊥) → exit_status s ≡ 0 → s ≡ Start.done
unfolding exit_status
exit_status-zero Start.done none_ e = refl
exit_status-zero (Start.gives x) none_ e = absurd (ground arith)
exit_status-zero (Start.exits n) none_ e = absurd (none_ n refl)

or_return-exits :
    (o : Option Error) (next : Start) (k : ℕ)
    → (next ≡ Start.exits k → ⊥)
    → or_return o next ≡ Start.exits k
    → ⊥
unfolding or_return
or_return-exits none next k f e = f e
or_return-exits (some x) next k f e = ground arith

done-exits : (k : ℕ) → Start.done ≡ Start.exits k → ⊥
done-exits k e = ground arith

-- runMigrations of the migrator gives its errors back.
migrate_to-exits :
    (m : Machine) (config : Settings) (n k : ℕ) → migrate_to m config n ≡ Start.exits k → ⊥
unfolding migrate_to
migrate_to-exits m config n k = or_return-exits _ _ k (
    or_return-exits m.migration_driver _ k (
      or_return-exits m.migration_source _ k (
        or_return-exits m.migration_instance _ k
          (or_return-exits (migrate_error (m.migrate n)) _ k (done-exits k)))))

-- What an exit with status 0 says.
abbrev pub AtVersion : Machine → ℤ → Type 0
AtVersion m version =
    (n : ℕ) × (version ≡ pos (suc n)) × Reached (suc n) (m.tables_after_migrate (suc n))

migrate_or_refuse-zero :
    (m : Machine) (config : Settings) (version : ℤ)
    → Migrates m
    → migrate_or_refuse m config version ≡ 0
    → AtVersion m version
unfolding migrate_or_refuse migrator_run_migrations exit_status
migrate_or_refuse-zero m config (pos zero) migrates e = absurd (ground arith)
migrate_or_refuse-zero m config (pos (suc n)) migrates e = (
  n,
  refl,
  migrate_to-done m config (suc n) migrates
      (exit_status-zero (migrate_to m config (suc n)) (migrate_to-exits m config (suc n)) e),
)
migrate_or_refuse-zero m config (negsuc zero) migrates e = absurd (ground arith)
migrate_or_refuse-zero m config (negsuc (suc n)) migrates e = absurd (ground arith)

-- The migrator exits with status 0 only for a version above 0, and the database then has that
-- version.
pub migrator_main-AtVersion :
    (m : Machine) (config_file : String) (version : ℤ)
    → Migrates m
    → migrator_main m config_file version ≡ 0
    → AtVersion m version
unfolding migrator_main
migrator_main-AtVersion m config_file version migrates e =
    elim (Result-cases (get_config m config_file)) [
      | inr (x, q) ↦ absurd (ground arith)
      | inl (read, q) ↦ elim (Option-cases (m.configure_logging read)) [
        | inr (x, r) ↦ absurd (ground arith)
        | inl r ↦ migrate_or_refuse-zero m read version migrates (ground arith)
      ]
    ]
