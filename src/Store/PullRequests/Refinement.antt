-- ===== src/Store/PullRequests/Refinement.antt =====
-- store/sql_pull_request_store.go: the SQL store does no more and no less than the interface says.
use mattermost_mattermod.Base.{
  ◌≡◌, ◌⊎◌, ◌∙◌, ap, sym, inl, inr, refl, none, some, List, [], ◌∷◌, ◌==◌, arith, Option-cases,
  Bool-cases,
}
use mattermost_mattermod.Base.Text.{◌+++◌}
use mattermost_mattermod.Model.{PullRequest, Key, key_eq, pr_key, state_open}
use mattermost_mattermod.World.{World, insert_pr, update_pr, select_pr, select_open, ran}
use mattermost_mattermod.World.Github.{Error, Result, ok, err}
use mattermost_mattermod.World.Monad.{Server, returned, log, error}
use mattermost_mattermod.Store.PullRequests.{
  find, where_open, could_not_save, update, save, get, list_open, duplicate_key,
}
use mattermost_mattermod.Store.PullRequests.RoundTrip.{
  Distinct, find-update_where, find_at, find-save, save_err, save-Distinct,
}
use mattermost_mattermod.Store.PullRequests.Interface.{
  map_of, Call, saves, gets_at, lists, Answer, saved, got, listed, put, if_open, Specified,
  save_stores, save_loses, save_fails, get_finds, get_fails, list_finds, list_fails, perform,
  Answers, no_call, next_call, perform_all,
}

-- Open rows of a table with a primary key.
find-where_open :
    (k : Key) (rows : List PullRequest)
    → Distinct rows
    → find k (where_open rows) ≡ if_open (find k rows)
unfolding find where_open
find-where_open k [] d = refl
find-where_open k (row ∷ rows) d =
    let rest = find-where_open k rows d.1 in
    let hit = key_eq (pr_key row) k in
    elim (Bool-cases (row.state == state_open)) [
      | inl is_open ↦ elim (Bool-cases hit) [
        | inl here ↦ rw (is_open, here) (rw is_open refl)
        | inr elsewhere ↦ rw (is_open, elsewhere) rest
      ]
      | inr closed ↦ elim (Bool-cases hit) [
        | inl here ↦
            rw (closed, here)
              (rw closed (rest ∙ ap if_open (sym (find_at (pr_key row) k rows here) ∙ d.0)))
        | inr elsewhere ↦ rw (closed, elsewhere) rest
      ]
    ]

module _ (s : Server) (pr : PullRequest) (w : World) where
  -- After a failed INSERT the UPDATE decides.
  save_after :
      (e : Error)
      → (let r = (update s pr (log (ran (insert_pr pr) (some e)) w)).0 in
          (r ≡ returned none) ⊎ ((x : Error) × (r ≡ returned (some x))))
  unfolding update
  save_after e =
      elim (Option-cases
        (s.outside.statement (ran (insert_pr pr) (some e) ∷ w.trace) (update_pr pr))) [
          | inl q ↦ inl (ground arith)
          | inr (x, q) ↦ inr (x, ground arith)
        ]

  save_result :
      ((save s pr w).0 ≡ returned (ok pr)) ⊎ ((e : Error) × ((save s pr w).0 ≡ returned (err e)))
  unfolding save
  save_result = elim (Option-cases (find (pr_key pr) w.pull_requests)) [
    | inr (row, q) ↦ elim (save_after duplicate_key) [
      | inl u ↦ inl (ground (arith, u, q))
      | inr (x, u) ↦ inr (could_not_save pr x, ground (arith, u, q))
    ]
    | inl q ↦ elim (Option-cases (s.outside.statement w.trace (insert_pr pr))) [
      | inl i ↦ inl (ground (arith, q, i))
      | inr (e, i) ↦ elim (save_after e) [
        | inl u ↦ inl (ground (arith, u, q, i))
        | inr (x, u) ↦ inr (could_not_save pr x, ground (arith, u, q, i))
      ]
    ]
  ]

  -- A row that is there is replaced.
  save-put_old :
      (row r : PullRequest) (k : Key)
      → find (pr_key pr) w.pull_requests ≡ some row
      → (save s pr w).0 ≡ returned (ok r)
      → find k (save s pr w).1.pull_requests ≡ put pr (map_of w) k
  unfolding save
  save-put_old row r k old succeeds =
      ground (arith, find-update_where pr k w.pull_requests, find_at (pr_key pr) k w.pull_requests)

  -- A new row whose INSERT the driver refuses is lost.
  save-lost :
      (e : Error) (k : Key)
      → find (pr_key pr) w.pull_requests ≡ none
      → s.outside.statement w.trace (insert_pr pr) ≡ some e
      → find k (save s pr w).1.pull_requests ≡ find k w.pull_requests
  unfolding save
  save-lost e k new refused =
      ground (arith, find-update_where pr k w.pull_requests, find_at (pr_key pr) k w.pull_requests)

-- What a call does, as its answer and the map after it.
abbrev Done : Server → Call → World → Type 0
Done s c w =
    (a : Answer) × ((perform s c w).0 ≡ returned a)
    × (Specified (map_of w) (map_of (perform s c w).1) c a)
    × (Distinct (perform s c w).1.pull_requests)

perform-saves :
    (s : Server) (pr : PullRequest) (r : Result PullRequest) (w : World)
    → (save s pr w).0 ≡ returned r
    → perform s (saves pr) w ≡ (returned (saved r), (save s pr w).1)
unfolding perform
perform-saves s pr r w e = rw e refl

save-Done :
    (s : Server) (pr : PullRequest) (r : Result PullRequest) (w : World)
    → Distinct w.pull_requests
    → (save s pr w).0 ≡ returned r
    → Specified (map_of w) (map_of (save s pr w).1) (saves pr) (saved r)
    → Done s (saves pr) w
save-Done s pr r w d e spec =
    rw (perform-saves s pr r w e) (saved r, refl, spec, save-Distinct s pr w d)

saves-Done :
    (s : Server) (pr : PullRequest) (w : World) → Distinct w.pull_requests → Done s (saves pr) w
saves-Done s pr w d = elim (save_result s pr w) [
  | inr (x, e) ↦
      save-Done s pr (err x) w d e
        (save_fails pr x (λ k. ap (λ rows. find k rows) (save_err s pr x w e)))
  | inl e ↦ save-Done s pr (ok pr) w d e (stored_or_lost e)
]
  where
    stored_or_lost :
        (save s pr w).0 ≡ returned (ok pr)
        → Specified (map_of w) (map_of (save s pr w).1) (saves pr) (saved (ok pr))
    stored_or_lost e = elim (Option-cases (find (pr_key pr) w.pull_requests)) [
      | inr (row, old) ↦ save_stores pr (λ k. save-put_old s pr w row pr k old e)
      | inl new ↦ elim (Option-cases (s.outside.statement w.trace (insert_pr pr))) [
        | inl accepted ↦ save_stores pr (λ k. find-save s pr pr k w accepted e)
        | inr (x, refused) ↦ save_loses pr new (λ k. save-lost s pr w x k new refused)
      ]
    ]

gets_at-Done : (s : Server) (k : Key) (w : World) → Distinct w.pull_requests → Done s (gets_at k) w
unfolding perform get
gets_at-Done s k w d = elim (Option-cases (s.outside.statement w.trace (select_pr k))) [
  | inl runs ↦ rw runs (got (ok (find k w.pull_requests)), refl, get_finds k (λ k. refl), d)
  | inr (e, fails) ↦
      let x = error ("could not get PR: owner=, name=, number=0, err=" +++ e.text) in
      rw fails (got (err x), refl, get_fails k x (λ k. refl), d)
]

lists-Done : (s : Server) (w : World) → Distinct w.pull_requests → Done s lists w
unfolding perform list_open
lists-Done s w d = elim (Option-cases (s.outside.statement w.trace select_open)) [
  | inl runs ↦
      let rows = where_open w.pull_requests in
      let finds = λ (k : Key). find-where_open k w.pull_requests d in
      rw runs (listed (ok rows), refl, list_finds rows finds (λ k. refl), d)
  | inr (e, fails) ↦
      let x = error ("could not list open PRs: " +++ e.text) in
      rw fails (listed (err x), refl, list_fails x (λ k. refl), d)
]

perform-Done : (s : Server) (c : Call) (w : World) → Distinct w.pull_requests → Done s c w
perform-Done s (saves pr) w d = saves-Done s pr w d
perform-Done s (gets_at k) w d = gets_at-Done s k w d
perform-Done s lists w d = lists-Done s w d

-- Whatever the driver does, from a table with a primary key the SQL store answers every sequence of
-- calls, and each answer, with what it does to the table as a map from keys to rows, is a specified one:
-- a save puts the row that it leaves, a get finds what is at the key, a listing finds the open rows, or
-- the call fails and changes nothing, or the save of a new row reports success and is lost.
pub perform_all-Answers :
    (s : Server) (calls : List Call) (w : World)
    → Distinct w.pull_requests
    → (answers : List Answer) × ((perform_all s calls w).0 ≡ returned answers)
      × Answers (map_of w) calls answers (map_of (perform_all s calls w).1)
unfolding perform_all
perform_all-Answers s [] w d = ([], refl, no_call (map_of w))
perform_all-Answers s (c ∷ calls) w d =
    let (a, e, spec, d') = perform-Done s c w d in
    let (answers, e', rest) = perform_all-Answers s calls (perform s c w).1 d' in
    rw (e, e') (a ∷ answers, refl, next_call spec rest)
