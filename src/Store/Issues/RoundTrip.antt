-- ===== src/Store/Issues/RoundTrip.antt =====
-- store/sql_issue_store.go: what Save stores and what it leaves alone.
use mattermost_mattermod.Base.{
  ◌≡◌, ap, inl, inr, true, none, some, List, [], ◌∷◌, arith, Bool-cases, if◌then◌else◌, is_some,
}
use mattermost_mattermod.Model.{Issue, Key, key_eq, issue_key}
use mattermost_mattermod.Model.Keys.{key_eq→eq, key_eq_left, key_eq_join}
use mattermost_mattermod.World.{
  World, Event, Statement, ran, insert_issue, update_issue, select_issue,
}
use mattermost_mattermod.World.Github.{ok}
use mattermost_mattermod.World.Monad.{Server, returned}
use mattermost_mattermod.Store.PullRequests.{duplicate_key}
use mattermost_mattermod.Store.Issues.{find, update_where, save, get}

-- No two rows have one key.
abbrev pub Distinct : List Issue → Type 0
Distinct [] = Unit {0}
Distinct (row ∷ rows) = (find (issue_key row) rows ≡ none) × Distinct rows

find-update_where :
    (issue : Issue) (k : Key) (rows : List Issue)
    → find k (update_where issue rows) ≡ (
        if key_eq (issue_key issue) k
        then (if is_some (find k rows) then some issue else none)
        else find k rows)
unfolding find update_where
find-update_where issue k [] = ground arith
find-update_where issue k (row ∷ rows) =
    elim (Bool-cases (key_eq (issue_key row) (issue_key issue))) [
      | inl hit ↦ rw hit (
          ground (
            arith,
            key_eq_left (issue_key row) (issue_key issue) k hit,
            find-update_where issue k rows,
          ))
      | inr miss ↦ rw miss (
          ground (
            arith,
            key_eq_join (issue_key row) (issue_key issue) k,
            find-update_where issue k rows,
          ))
    ]

find_at : (a k : Key) (rows : List Issue) → key_eq a k ≡ true → find a rows ≡ find k rows
find_at a k rows h = ap (λ c. find c rows) (key_eq→eq a k h)

Distinct-update_where :
    (issue : Issue) (rows : List Issue) → Distinct rows → Distinct (update_where issue rows)
unfolding update_where
Distinct-update_where issue [] d = tt
Distinct-update_where issue (row ∷ rows) d =
    elim (Bool-cases (key_eq (issue_key row) (issue_key issue))) [
      | inl hit ↦ rw hit (
        ground (
          arith,
          find-update_where issue (issue_key issue) rows,
          find_at (issue_key row) (issue_key issue) rows hit,
        ),
        Distinct-update_where issue rows d.1,
      )
      | inr miss ↦ rw miss (
        ground (arith, find-update_where issue (issue_key row) rows),
        Distinct-update_where issue rows d.1,
      )
    ]

-- No save of an issue breaks the primary key, whether it reports an error or not.
pub save-Distinct :
    (s : Server) (issue : Issue) (w : World)
    → Distinct w.issues
    → Distinct (save s issue w).1.issues
unfolding save
save-Distinct s issue w d = ground (arith, Distinct-update_where issue w.issues d)

-- Where the driver accepts the statements, Save stores an issue and reports no error, and Get under a
-- key then gives the issue if the key is its own, and what it gave before otherwise.
pub get-save :
    (s : Server) (issue : Issue) (k : Key) (w : World)
    → ((t : List Event) (st : Statement) → s.outside.statement t st ≡ none)
    → let v = (save s issue w).1 in
      ((save s issue w).0 ≡ returned (ok issue))
      × ((get s k v).0
          ≡ returned (ok (if key_eq (issue_key issue) k then some issue else find k w.issues)))
unfolding save get
get-save s issue k w works =
    let i = ran (insert_issue issue) in
    let u = ran (update_issue issue) in
    let v = (save s issue w).1 in
    (
      ground (
        arith,
        works w.trace (insert_issue issue),
        works (i (some duplicate_key) ∷ w.trace) (update_issue issue),
      ),
      ground (
        arith,
        works w.trace (insert_issue issue),
        works (i (some duplicate_key) ∷ w.trace) (update_issue issue),
        works v.trace (select_issue k),
        find-update_where issue k w.issues,
        find_at (issue_key issue) k w.issues,
      ),
    )
