-- ===== src/Program/Startup/Outcomes.antt =====
-- How the programs start: what their mains have in common, and what the database has then.
use mattermost_mattermod.Base.{
  ℕ, ◌≤◌, String, Option, none, some, ◌≡◌, ◌⊎◌, inl, inr, refl, arith, Option-cases,
}
use mattermost_mattermod.World.Github.{Error, Result-cases}
use mattermost_mattermod.Server.Transport.{new_github_client}
use mattermost_mattermod.Program.Startup.{
  Settings, Machine, Start, Process, get_config, or_exit, or_return, and_then, init_connection,
  new_mutex_store, up_error, run_migrations, new_sql_store, new_server, start_server,
  mattermod_main, jobserver_main,
}
use Process.{runs, exited}

-- The two mains go on together, or both end, the server's with status 0 where the job server's has
-- 1, or with one status that is not 0.
abbrev pub Agree : Process → Process → Type 0
Agree p q =
    ((config : Settings) × (p ≡ runs config) × (q ≡ runs config))
    ⊎ ((p ≡ exited 0) × (q ≡ exited 1))
    ⊎ ((n : ℕ) × (1 ≤ n) × (p ≡ exited n) × (q ≡ exited n))

Start-cases :
    (s : Start)
    → (s ≡ Start.done) ⊎ ((e : Error) × (s ≡ Start.gives e)) ⊎ ((n : ℕ) × (s ≡ Start.exits n))
Start-cases Start.done = inl refl
Start-cases (Start.gives e) = inr (inl (e, refl))
Start-cases (Start.exits n) = inr (inr (n, refl))

-- The statuses of NewSQLStore's exits are not 0.
or_exit_positive :
    (o : Option Error) (status n : ℕ) (next : Start)
    → 1 ≤ status
    → (next ≡ Start.exits n → 1 ≤ n)
    → or_exit o status next ≡ Start.exits n
    → 1 ≤ n
unfolding or_exit
or_exit_positive none status n next h f e = f e
or_exit_positive (some x) status n next h f e = ground arith

or_return_positive :
    (o : Option Error) (n : ℕ) (next : Start)
    → (next ≡ Start.exits n → 1 ≤ n)
    → or_return o next ≡ Start.exits n
    → 1 ≤ n
unfolding or_return
or_return_positive none n next f e = f e
or_return_positive (some x) n next f e = absurd (ground arith)

and_then_positive :
    (s next : Start) (n : ℕ)
    → (s ≡ Start.exits n → 1 ≤ n)
    → (next ≡ Start.exits n → 1 ≤ n)
    → and_then s next ≡ Start.exits n
    → 1 ≤ n
unfolding and_then
and_then_positive Start.done next n f g e = g e
and_then_positive (Start.gives x) next n f g e = absurd (ground arith)
and_then_positive (Start.exits k) next n f g e = f e

done_positive : (n : ℕ) → Start.done ≡ Start.exits n → 1 ≤ n
done_positive n e = absurd (ground arith)

new_sql_store_positive :
    (m : Machine) (config : Settings) (n : ℕ) → new_sql_store m config ≡ Start.exits n → 1 ≤ n
unfolding new_sql_store init_connection new_mutex_store run_migrations
new_sql_store_positive m config n =
    and_then_positive (init_connection m config) _ n
      (or_exit_positive _ 101 n _ (omega arith)
        (or_exit_positive _ 102 n _ (omega arith) (done_positive n)))
      (and_then_positive (new_mutex_store m) (run_migrations m) n
        (or_return_positive _ n _ (or_return_positive _ n _ (done_positive n)))
        (or_exit_positive m.migration_driver 1 n _ (omega arith) (
          or_exit_positive m.migration_source 1 n _ (omega arith) (
            or_exit_positive m.migration_instance 1 n _ (omega arith)
              (or_exit_positive (up_error m.up) 1 n _ (omega arith) (done_positive n))))))

new_server_positive :
    (m : Machine) (config : Settings) (n : ℕ) → new_server m config ≡ Start.exits n → 1 ≤ n
unfolding new_server
new_server_positive m config n e =
    elim (Result-cases (new_github_client config.github_token_reserve)) [
      | inl (limiter, q) ↦ new_sql_store_positive m config n (ground arith)
      | inr (x, q) ↦ absurd (ground arith)
    ]

start_server-Agree :
    (m : Machine) (config : Settings) → Agree (start_server m 0 config) (start_server m 1 config)
unfolding start_server
start_server-Agree m config = elim (Option-cases (m.configure_logging config)) [
  | inr (x, e) ↦ rw (start_server, e) (inr (inl (refl, refl)))
  | inl e ↦ elim (Start-cases (new_server m config)) [
    | inl q ↦ rw (start_server, e, q) (inl (config, refl, refl))
    | inr (inl (x, q)) ↦ rw (start_server, e, q) (inr (inl (refl, refl)))
    | inr (inr (n, q)) ↦
        rw (start_server, e, q) (inr (inr (n, new_server_positive m config n q, refl, refl)))
  ]
]

-- Whatever the machine answers, the server and the job server go on under the same conditions. Where
-- they end, it is either with one status that is not 0, or the server's status is 0 where the job
-- server's is 1.
pub mattermod_main-Agree :
    (m : Machine) (config_file : String)
    → Agree (mattermod_main m config_file) (jobserver_main m config_file)
unfolding mattermod_main jobserver_main
mattermod_main-Agree m config_file = elim (Result-cases (get_config m config_file)) [
  | inl (config, e) ↦ rw (mattermod_main, jobserver_main, e) (start_server-Agree m config)
  | inr (x, e) ↦ rw (mattermod_main, jobserver_main, e) (inr (inl (refl, refl)))
]
