-- ===== src/World/Monad/Keeps.antt =====
-- Invariants of actions: one rule for each way to build an action.
use mattermost_mattermod.Base.{Bool, true, false, Option, none, some, List, [], ◌∷◌, if◌then◌else◌}
use mattermost_mattermod.World.{World, Event}
use mattermost_mattermod.World.Monad.{
  M, Outcome, returned, panicked, unfinished, continue, ◌>>=◌, pure, panic, out_of_fuel, deref,
  gets, modify, when, log, ask, for_each, for_while, attempt,
}
use mattermost_mattermod.World.Github.{Error, Result, ok, err}

-- `m` keeps `P`, whether it returns or panics.
pub record Keeps {ℓ} {A : Type 0} (P : World → Type ℓ) (m : M A) : Type ℓ where
  pub at : (w : World) → P w → P (m w).1

module _ {ℓ} {P : World → Type ℓ} where
  pub Keeps-pure : {A : Type 0} (a : A) → Keeps P (pure a)
  unfolding ◌>>=◌
  Keeps-pure a = record { at = λ w h. h }

  pub Keeps-panic : {A : Type 0} → Keeps P (panic {A = A})
  unfolding ◌>>=◌
  Keeps-panic = record { at = λ w h. h }

  pub Keeps-out_of_fuel : {A : Type 0} → Keeps P (out_of_fuel {A = A})
  unfolding ◌>>=◌
  Keeps-out_of_fuel = record { at = λ w h. h }

  pub Keeps-deref : {A : Type 0} (o : Option A) → Keeps P (deref o)
  unfolding ◌>>=◌
  Keeps-deref none = record { at = λ w h. h }
  Keeps-deref (some a) = record { at = λ w h. h }

  pub Keeps-gets : {A : Type 0} (f : World → A) → Keeps P (gets f)
  unfolding ◌>>=◌
  Keeps-gets f = record { at = λ w h. h }

  pub Keeps-modify : (f : World → World) → ((w : World) → P w → P (f w)) → Keeps P (modify f)
  unfolding ◌>>=◌
  Keeps-modify f h = record { at = h }

  pub Keeps-ask :
      {A : Type 0} (answer : List Event → A) (event : A → Event)
      → ((w : World) (a : A) → P w → P (log (event a) w))
      → Keeps P (ask answer event)
  unfolding ◌>>=◌
  Keeps-ask answer event h = record { at = λ w p. h w (answer w.trace) p }

  pub Keeps-if :
      {A : Type 0} (b : Bool) (m n : M A) → Keeps P m → Keeps P n → Keeps P (if b then m else n)
  Keeps-if true m n km kn = km
  Keeps-if false m n km kn = kn

  pub Keeps-when : (b : Bool) (m : M (Unit {0})) → Keeps P m → Keeps P (when b m)
  unfolding ◌>>=◌
  Keeps-when true m km = km
  Keeps-when false m km = record { at = λ w h. h }

  Keeps-continue :
      {A B : Type 0} (r : Outcome A) (f : A → M B)
      → ((a : A) → Keeps P (f a))
      → (w : World) → P w
      → P (continue r f w).1
  Keeps-continue (returned a) f kf w h = (kf a).at w h
  Keeps-continue panicked f kf w h = h
  Keeps-continue unfinished f kf w h = h

  pub Keeps-bind :
      {A B : Type 0} (m : M A) (f : A → M B)
      → Keeps P m
      → ((a : A) → Keeps P (f a))
      → Keeps P (m >>= f)
  unfolding ◌>>=◌
  Keeps-bind m f km kf = record { at = λ w h. Keeps-continue (m w).0 f kf (m w).1 (km.at w h) }

  pub Keeps-for_each :
      {A : Type 0} (xs : List A) (body : A → M (Unit {0}))
      → ((a : A) → Keeps P (body a))
      → Keeps P (for_each xs body)
  unfolding for_each
  Keeps-for_each [] body k = Keeps-pure tt
  Keeps-for_each (x ∷ xs) body k = Keeps-bind (body x) _ (k x) (λ _. Keeps-for_each xs body k)

  pub Keeps-for_while :
      {A : Type 0} (xs : List A) (body : A → M Bool)
      → ((a : A) → Keeps P (body a))
      → Keeps P (for_while xs body)
  unfolding for_while
  Keeps-for_while [] body k = Keeps-pure tt
  Keeps-for_while (x ∷ xs) body k =
      Keeps-bind (body x) _ (k x) (λ more. Keeps-when more _ (Keeps-for_while xs body k))

  pub Keeps-Result :
      {A B : Type 0} (r : Result A) (f : Error → M B) (g : A → M B)
      → ((e : Error) → Keeps P (f e))
      → ((a : A) → Keeps P (g a))
      → Keeps P (elim r [ err e ↦ f e | ok a ↦ g a ])
  Keeps-Result (err e) f g kf kg = kf e
  Keeps-Result (ok a) f g kf kg = kg a

  pub Keeps-Option :
      {A B : Type 0} (o : Option A) (m : M B) (f : A → M B)
      → Keeps P m
      → ((a : A) → Keeps P (f a))
      → Keeps P (elim o [ none ↦ m | some a ↦ f a ])
  Keeps-Option none m f km kf = km
  Keeps-Option (some a) m f km kf = kf a

  pub Keeps-attempt :
      {A B : Type 0} (m : M (Result A)) (f : A → M (Result B))
      → Keeps P m
      → ((a : A) → Keeps P (f a))
      → Keeps P (attempt m f)
  unfolding attempt
  Keeps-attempt m f km kf =
      Keeps-bind m _ km (λ r. Keeps-Result r (λ e. pure (err e)) f (λ e. Keeps-pure (err e)) kf)

pub ruleset keeps_rules = (
  Keeps-pure, Keeps-panic, Keeps-out_of_fuel, Keeps-deref, Keeps-gets, Keeps-modify, Keeps-ask,
  Keeps-if, Keeps-when, Keeps-bind, Keeps-for_each, Keeps-for_while, Keeps-Result, Keeps-Option,
  Keeps-attempt,
)
