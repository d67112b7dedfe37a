-- ===== src/World/Frame.antt =====
-- What most actions leave as it is: the tables, the queue, and the merges that were asked for.
use mattermost_mattermod.Base.{◌≡◌, refl, List, [], ◌∷◌, arith, Bool, inl, inr}
use mattermost_mattermod.World.{World, Event, merged_pull}
use mattermost_mattermod.World.Monad.{M, Outcome-cases, for_each, for_while}

-- The merges of a history, each with the history before it.
abbrev pub merges_of : List Event → List (Event × List Event)
merges_of [] = []
merges_of (merged_pull o n k h m r ∷ t) = (merged_pull o n k h m r, t) ∷ merges_of t
merges_of (e ∷ t) = merges_of t

-- The two worlds have the same tables, the same queue and the same merges.
abbrev pub Same : World → World → Type 0
Same w v =
    (v.pull_requests ≡ w.pull_requests)
    × (v.issues ≡ w.issues)
    × (v.queue ≡ w.queue)
    × (merges_of v.trace ≡ merges_of w.trace)

pub for_each-Same :
    {A : Type 0} (xs : List A) (act : A → M (Unit {0})) (w : World)
    → ((a : A) (w : World) → Same w (act a w).1)
    → Same w (for_each xs act w).1
unfolding for_each
for_each-Same [] act w h = (refl, refl, refl, refl)
for_each-Same (x ∷ xs) act w h =
    let first = h x w in
    let rest = for_each-Same xs act (act x w).1 h in
    elim (Outcome-cases (act x w).0) [
      | inl (a, e) ↦ ground (arith, first, rest)
      | inr (inl e) ↦ ground (arith, first)
      | inr (inr e) ↦ ground (arith, first)
    ]

pub for_while-Same :
    {A : Type 0} (xs : List A) (act : A → M Bool) (w : World)
    → ((a : A) (w : World) → Same w (act a w).1)
    → Same w (for_while xs act w).1
unfolding for_while
for_while-Same [] act w h = (refl, refl, refl, refl)
for_while-Same (x ∷ xs) act w h =
    let first = h x w in
    let rest = for_while-Same xs act (act x w).1 h in
    elim (Outcome-cases (act x w).0) [
      | inl (a, e) ↦ ground (arith, first, rest)
      | inr (inl e) ↦ ground (arith, first)
      | inr (inr e) ↦ ground (arith, first)
    ]
