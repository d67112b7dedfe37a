-- ===== src/Server/CommentLock/Once.antt =====
-- The goroutines of one process post an answer once.
use mattermost_mattermod.Base.{
  ℕ, ◌+◌, ◌≤◌, String, false, Option, none, some, List, [], ◌∷◌, ◌++◌, ◌==◌, ◌≡◌, arith, eq_iff,
  nat_eq, if◌then◌else◌, Bool-cases, inl, inr, ap,
}
use mattermost_mattermod.Server.CommentLock.{
  Post, said, Phase, State, Step, Runs, set, goes, locks, comment, is_answer, times, occurrences,
}
use mattermost_mattermod.Server.CommentLock.Counts.{
  times-unsaid, times-append, occurrences-le, set-All, set-same,
}
use mathlib.Core.Path.{subst}
use Phase.{waiting, locked, answering, returned}
use Step.{lock, list, list_fails, skip, post, post_fails, unlock, others}
use Runs.{stop, go_on}

module _ (bot m : String) (home : ℕ → ℕ) (one_process : (i j : ℕ) → home i ≡ home j) where
  -- How many answers a goroutine may still post.
  abbrev due : List Post → List String → ℕ
  due seen ms = if said seen bot m then 0 else occurrences m ms

  -- What holds of a goroutine: behind the lock it holds it, and has at most one answer to post if
  -- there is none.
  abbrev Fits : (ℕ → Option ℕ) → List Post → ℕ → Phase → Type 0
  Fits holder posts i (waiting ms) = occurrences m ms ≤ 1
  Fits holder posts i (locked ms) = (holder (home i) ≡ some i) × (occurrences m ms ≤ 1)
  Fits holder posts i (answering seen ms) =
      (holder (home i) ≡ some i) × (times bot m posts + due seen ms ≤ 1)
  Fits holder posts i returned = Unit

  record Inv (s : State) : Type 0 where
    few : times bot m s.comments ≤ 1
    fits : (i : ℕ) → Fits s.holder s.comments i (s.phase i)

  -- A goroutine that does not hold the lock does not depend on it, nor on the comments.
  Fits-outside :
      (holder holder' : ℕ → Option ℕ) (posts posts' : List Post) (j : ℕ) (p : Phase)
      → (holder (home j) ≡ some j → ⊥)
      → Fits holder posts j p
      → Fits holder' posts' j p
  Fits-outside holder holder' posts posts' j (waiting ms) h f = f
  Fits-outside holder holder' posts posts' j (locked ms) h f = absurd (h f.0)
  Fits-outside holder holder' posts posts' j (answering seen ms) h f = absurd (h f.0)
  Fits-outside holder holder' posts posts' j returned h f = f

  -- Where one goroutine holds the lock, another does not.
  alone :
      (holder : ℕ → Option ℕ) (i j : ℕ)
      → holder (home i) ≡ some i
      → nat_eq i j ≡ false
      → holder (home j) ≡ some j
      → ⊥
  alone holder i j h n g = ground (arith, ap holder (one_process i j))

  free : (holder : ℕ → Option ℕ) (i j : ℕ) → holder (home i) ≡ none → holder (home j) ≡ some j → ⊥
  free holder i j h g = ground (arith, ap holder (one_process i j))

  -- What holds of a goroutine in a phase.
  at_phase : (s : State) (i : ℕ) (p : Phase) → Inv s → s.phase i ≡ p → Fits s.holder s.comments i p
  at_phase s i p v e = subst (λ q. Fits s.holder s.comments i q) e (v.fits i)

  -- A goroutine goes on while it has the lock, or is in front of it.
  goes-Inv :
      (s : State) (i : ℕ) (p : Phase) → Inv s → Fits s.holder s.comments i p → Inv (goes i p s)
  goes-Inv s i p v f = record {
    few = v.few;
    fits = set-All (Fits s.holder s.comments) i p s.phase f (λ j other. v.fits j);
  }

  -- The goroutine that holds the lock unlocks it.
  unlocks-Inv :
      (s : State) (i : ℕ) → Inv s → s.holder (home i) ≡ some i → Inv (locks home none i returned s)
  unlocks-Inv s i v held = record {
    few = v.few;
    fits = set-All (Fits (set (home i) none s.holder) s.comments) i returned s.phase tt λ j other.
        Fits-outside s.holder (set (home i) none s.holder) s.comments s.comments j (s.phase j)
          (alone s.holder i j held other) (v.fits j);
  }

  lock-Inv :
      (s : State) (i : ℕ) (ms : List String)
      → Inv s
      → s.phase i ≡ waiting ms
      → s.holder (home i) ≡ none
      → Inv (locks home (some i) i (locked ms) s)
  lock-Inv s i ms v e h = record {
    few = v.few;
    fits =
        set-All (Fits (set (home i) (some i) s.holder) s.comments) i (locked ms) s.phase
          (set-same (home i) (some i) s.holder, at_phase s i (waiting ms) v e)
          λ j other.
            Fits-outside s.holder (set (home i) (some i) s.holder) s.comments s.comments j
              (s.phase j) (free s.holder i j h) (v.fits j);
  }

  -- What the goroutine has read is what there is.
  due_listed :
      (posts : List Post) (ms : List String)
      → times bot m posts ≤ 1
      → occurrences m ms ≤ 1
      → times bot m posts + due posts ms ≤ 1
  due_listed posts ms h g = elim (Bool-cases (said posts bot m)) [
    | inl found ↦ rw found (omega (arith, h))
    | inr missing ↦ rw missing (omega (arith, g, times-unsaid bot m posts missing))
  ]

  due-le : (seen : List Post) (x : String) (ms : List String) → due seen ms ≤ due seen (x ∷ ms)
  due-le seen x ms = ground (arith, occurrences-le m x ms)

  skip-Inv :
      (s : State) (i : ℕ) (seen : List Post) (x : String) (ms : List String)
      → Inv s
      → s.phase i ≡ answering seen (x ∷ ms)
      → Inv (goes i (answering seen ms) s)
  skip-Inv s i seen x ms v e =
      let f = at_phase s i (answering seen (x ∷ ms)) v e in
      goes-Inv s i (answering seen ms) v (f.0, omega (arith, f.1, due-le seen x ms))

  -- An answer that is posted is not due any more.
  due_posted :
      (posts seen : List Post) (x : String) (ms : List String)
      → times bot m posts + due seen (x ∷ ms) ≤ 1
      → said seen bot x ≡ false
      → times bot m (posts ++ record { user = bot; body = x } ∷ []) + due seen ms ≤ 1
  unfolding occurrences
  due_posted posts seen x ms h g = elim (Bool-cases (x == m)) [
    | inl same ↦
        let unsaid = subst (λ y. said seen bot y ≡ false) ((eq_iff x m).0 same) g in
        ground (arith, times-append bot m posts (record { user = bot; body = x }))
    | inr other ↦ ground (arith, times-append bot m posts (record { user = bot; body = x }))
  ]

  post-Inv :
      (s : State) (i : ℕ) (seen : List Post) (x : String) (ms : List String)
      → Inv s
      → s.phase i ≡ answering seen (x ∷ ms)
      → said seen bot x ≡ false
      → Inv (comment (record { user = bot; body = x }) (goes i (answering seen ms) s))
  post-Inv s i seen x ms v e g =
      let f = at_phase s i (answering seen (x ∷ ms)) v e in
      let fine = due_posted s.comments seen x ms f.1 g in
      record {
        few = omega (arith, fine);
        fits =
            set-All (Fits s.holder (s.comments ++ record { user = bot; body = x } ∷ [])) i
              (answering seen ms) s.phase (f.0, fine)
              λ j other.
                Fits-outside s.holder s.holder s.comments
                  (s.comments ++ record { user = bot; body = x } ∷ []) j (s.phase j)
                  (alone s.holder i j f.0 other) (v.fits j);
      }

  -- Another comment changes nothing for a goroutine.
  Fits-others :
      (holder : ℕ → Option ℕ) (posts : List Post) (c : Post) (j : ℕ) (p : Phase)
      → is_answer bot m c ≡ false
      → Fits holder posts j p
      → Fits holder (posts ++ c ∷ []) j p
  Fits-others holder posts c j (waiting ms) h f = f
  Fits-others holder posts c j (locked ms) h f = f
  Fits-others holder posts c j (answering seen ms) h f =
      (f.0, ground (arith, f.1, times-append bot m posts c))
  Fits-others holder posts c j returned h f = f

  Step-Inv : {s t : State} → Step bot m home s t → Inv s → Inv t
  Step-Inv {s} (lock i ms e h) v = lock-Inv s i ms v e h
  Step-Inv {s} (list i ms e) v =
      let f = at_phase s i (locked ms) v e in
      goes-Inv s i (answering s.comments ms) v (f.0, due_listed s.comments ms v.few f.1)
  Step-Inv {s} (list_fails i ms e) v = unlocks-Inv s i v (at_phase s i (locked ms) v e).0
  Step-Inv {s} (skip i seen x ms e h) v = skip-Inv s i seen x ms v e
  Step-Inv {s} (post i seen x ms e h) v = post-Inv s i seen x ms v e h
  Step-Inv {s} (post_fails i seen x ms e h) v = skip-Inv s i seen x ms v e
  Step-Inv {s} (unlock i seen e) v = unlocks-Inv s i v (at_phase s i (answering seen []) v e).0
  Step-Inv {s} (others p h) v = record {
    few = ground (arith, v.few, times-append bot m s.comments p);
    fits = λ j. Fits-others s.holder s.comments p j (s.phase j) h (v.fits j);
  }

  Runs-Inv : {s t : State} → Runs bot m home s t → Inv s → Inv t
  Runs-Inv stop v = v
  Runs-Inv (go_on step rest) v = Runs-Inv rest (Step-Inv step v)

-- The goroutine is in front of the lock, and has the text at most once among its answers.
abbrev pub Starts : String → Phase → Type 0
Starts m (waiting ms) = occurrences m ms ≤ 1
Starts m (locked ms) = ⊥
Starts m (answering seen ms) = ⊥
Starts m returned = Unit

Starts-Fits :
    (bot m : String) (home : ℕ → ℕ) (one : (i j : ℕ) → home i ≡ home j) (s : State) (i : ℕ)
    (p : Phase)
    → Starts m p
    → Fits bot m home one s.holder s.comments i p
Starts-Fits bot m home one s i (waiting ms) h = h
Starts-Fits bot m home one s i (locked ms) h = absurd h
Starts-Fits bot m home one s i (answering seen ms) h = absurd h
Starts-Fits bot m home one s i returned h = h

-- Where all goroutines share one process, no one but they posts the answer, it is there at most
-- once, and no label has it twice among its configured answers: then it is there at most once after
-- any interleaving of their steps, whether GitHub's calls fail or not.
pub Runs-posts_once :
    (bot m : String) (home : ℕ → ℕ)
    → ((i j : ℕ) → home i ≡ home j)
    → {s t : State} → ((i : ℕ) → Starts m (s.phase i))
    → times bot m s.comments ≤ 1
    → Runs bot m home s t
    → times bot m t.comments ≤ 1
Runs-posts_once bot m home one {s} fresh few runs =
    (Runs-Inv bot m home one runs
      (record { few = few; fits = λ i. Starts-Fits bot m home one s i (s.phase i) (fresh i) })).few
