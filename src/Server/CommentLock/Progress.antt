-- ===== src/Server/CommentLock/Progress.antt =====
-- The comment lock lets the goroutines come to an end.
use mattermost_mattermod.Base.{
  ℕ, ◌+◌, ◌<◌, String, false, none, some, List, [], ◌∷◌, ◌≡◌, inl, inr, refl, sym, ap, arith,
  nat_eq, Bool-cases, Option-cases, length,
}
use mattermost_mattermod.Server.CommentLock.Counts.{nat_eq→eq, set-same}
use mathlib.Core.Path.{subst}
use mattermost_mattermod.Server.CommentLock.{said, Phase, State, Step, Runs, set, goes, locks}
use Phase.{waiting, locked, answering, returned}
use Step.{lock, list, list_fails, skip, post, post_fails, unlock, others}
use Runs.{stop, go_on}

-- The goroutine is behind the lock.
abbrev pub Inside : Phase → Type 0
Inside (waiting ms) = ⊥
Inside (locked ms) = Unit
Inside (answering seen ms) = Unit
Inside returned = ⊥

-- The steps that a goroutine may still have in front of it.
unfoldable pub work : Phase → ℕ
work (waiting ms) = length ms + 3
work (locked ms) = length ms + 2
work (answering seen ms) = length ms + 1
work returned = 0

-- Whoever holds a lock is a goroutine of its process that is behind it.
abbrev pub Held : (ℕ → ℕ) → State → Type 0
Held home s = (p j : ℕ) → s.holder p ≡ some j → (home j ≡ p) × Inside (s.phase j)

module _ (home : ℕ → ℕ) where
  -- A goroutine goes on behind the lock.
  goes-Held : (s : State) (i : ℕ) (q : Phase) → Held home s → Inside q → Held home (goes i q s)
  goes-Held s i q held inside p j e = elim (Bool-cases (nat_eq i j)) [
    | inl same ↦ ((held p j e).0, rw same inside)
    | inr other ↦ ((held p j e).0, rw other (held p j e).1)
  ]

  -- What a goroutine does with its lock is nothing to those of the other locks.
  Held-elsewhere :
      (s : State) (i : ℕ) (q : Phase) (p j : ℕ)
      → Held home s
      → nat_eq (home i) p ≡ false
      → s.holder p ≡ some j
      → (home j ≡ p) × Inside (set i q s.phase j)
  Held-elsewhere s i q p j held away e = elim (Bool-cases (nat_eq i j)) [
    | inl same ↦ absurd (ground (arith, (held p j e).0, ap home (nat_eq→eq i j same)))
    | inr other ↦ ((held p j e).0, rw other (held p j e).1)
  ]

  unlocks-Held : (s : State) (i : ℕ) → Held home s → Held home (locks home none i returned s)
  unlocks-Held s i held p j e = elim (Bool-cases (nat_eq (home i) p)) [
    | inl same ↦ absurd (ground arith)
    | inr away ↦ Held-elsewhere s i returned p j held away (ground arith)
  ]

  lock-Held :
      (s : State) (i : ℕ) (ms : List String)
      → Held home s
      → Held home (locks home (some i) i (locked ms) s)
  lock-Held s i ms held p j e = elim (Bool-cases (nat_eq (home i) p)) [
    | inl same ↦
        let this : i ≡ j = ground arith in
        subst (λ k. (home k ≡ p) × Inside (set i (locked ms) s.phase k)) this
          (nat_eq→eq (home i) p same, subst Inside (sym (set-same i (locked ms) s.phase)) tt)
    | inr away ↦ Held-elsewhere s i (locked ms) p j held away (ground arith)
  ]

  Step-Held : {bot m : String} {s t : State} → Step bot m home s t → Held home s → Held home t
  Step-Held {s} (lock i ms e h) held = lock-Held s i ms held
  Step-Held {s} (list i ms e) held = goes-Held s i (answering s.comments ms) held tt
  Step-Held {s} (list_fails i ms e) held = unlocks-Held s i held
  Step-Held {s} (skip i seen x ms e h) held = goes-Held s i (answering seen ms) held tt
  Step-Held {s} (post i seen x ms e h) held = goes-Held s i (answering seen ms) held tt
  Step-Held {s} (post_fails i seen x ms e h) held = goes-Held s i (answering seen ms) held tt
  Step-Held {s} (unlock i seen e) held = unlocks-Held s i held
  Step-Held (others p h) held = held

  Runs-Held : {bot m : String} {s t : State} → Runs bot m home s t → Held home s → Held home t
  Runs-Held stop held = held
  Runs-Held (go_on step rest) held = Runs-Held rest (Step-Held step held)

-- One goroutine comes nearer to its end, and the others stay where they are.
abbrev pub Nearer : ℕ → State → State → Type 0
Nearer j s t =
    (work (t.phase j) < work (s.phase j)) × ((k : ℕ) → nat_eq j k ≡ false → t.phase k ≡ s.phase k)

goes-Nearer :
    (s : State) (j : ℕ) (p q : Phase) → s.phase j ≡ p → work q < work p → Nearer j s (goes j q s)
goes-Nearer s j p q e less = (rw (set-same j q s.phase, e) less, λ k away. rw away refl)

-- A step that some goroutine can make.
abbrev pub Moves : String → String → (ℕ → ℕ) → State → ℕ → Type 0
Moves bot m home s j = (t : State) × Step bot m home s t × Nearer j s t

module _ (bot m : String) (home : ℕ → ℕ) (s : State) where
  -- A goroutine behind the lock can go on, whatever it is about to do.
  advance_holder : (j : ℕ) (p : Phase) → s.phase j ≡ p → Inside p → Moves bot m home s j
  unfolding work
  advance_holder j (waiting ms) e inside = absurd inside
  advance_holder j (locked ms) e inside =
      (_, list j ms e, goes-Nearer s j (locked ms) (answering s.comments ms) e (omega arith))
  advance_holder j (answering seen []) e inside =
      (_, unlock j seen e, goes-Nearer s j (answering seen []) returned e (omega arith))
  advance_holder j (answering seen (x ∷ ms)) e inside = elim (Bool-cases (said seen bot x)) [
    | inl found ↦ (
      _,
      skip j seen x ms e found,
      goes-Nearer s j (answering seen (x ∷ ms)) (answering seen ms) e (omega arith),
    )
    | inr missing ↦ (
      _,
      post j seen x ms e missing,
      goes-Nearer s j (answering seen (x ∷ ms)) (answering seen ms) e (omega arith),
    )
  ]
  advance_holder j returned e inside = absurd inside

  -- One that waits can take the lock, or the holder can go on.
  advance_any :
      Held home s
      → (i : ℕ) (p : Phase) → s.phase i ≡ p
      → 0 < work p
      → (j : ℕ) × Moves bot m home s j
  unfolding work
  advance_any held i (waiting ms) e busy = elim (Option-cases (s.holder (home i))) [
    | inl free ↦
        (i, (_, lock i ms e free, goes-Nearer s i (waiting ms) (locked ms) e (omega arith)))
    | inr (j, taken) ↦ (j, advance_holder j (s.phase j) refl (held (home i) j taken).1)
  ]
  advance_any held i (locked ms) e busy = (i, advance_holder i (locked ms) e tt)
  advance_any held i (answering seen ms) e busy = (i, advance_holder i (answering seen ms) e tt)
  advance_any held i returned e busy = absurd (omega (arith, busy))

-- In any number of processes, from a state in which no lock is taken: as long as a goroutine has not
-- returned, some goroutine can make a step that brings it nearer to its return and leaves the others
-- where they are, so the lock never blocks all of them.
pub Runs-Moves :
    (bot m : String) (home : ℕ → ℕ) {s t : State}
    → ((p : ℕ) → s.holder p ≡ none)
    → Runs bot m home s t
    → (i : ℕ) → 0 < work (t.phase i)
    → (j : ℕ) × Moves bot m home t j
Runs-Moves bot m home {s} {t} free runs i busy =
    advance_any bot m home t (Runs-Held home runs (λ p j e. absurd (none_taken p j e))) i
      (t.phase i) refl busy
  where
    none_taken : (p j : ℕ) → s.holder p ≡ some j → ⊥
    none_taken p j e = ground (arith, free p)
