-- ===== src/World/Monad.antt =====
-- The handlers as actions on the world. A Go error is a value; a panic ends the action at once, and
-- what was done before it stays done. A loop that has used up its fuel is `unfinished`. `Server` is the receiver `s` of the Go methods, less what
-- they change.
pub mod Keeps
pub mod Inversion
use mattermost_mattermod.Base.{
  ℕ, String, Bool, true, false, Option, none, some, List, [], ◌∷◌, ◌≡◌, refl, ◌⊎◌, inl, inr,
}
use mattermost_mattermod.Base.Text.{◌+++◌}
use mattermost_mattermod.World.{
  World, Event, Outside, Statement, Task, ran, counted, responded, locked, unlocked,
}
use mattermost_mattermod.World.Github.{Error, Result, ok, err}
use mattermost_mattermod.World.Response
use mattermost_mattermod.World.Config.{Config}

pub record Server : Type 0 where
  pub config : Config
  pub outside : Outside
  -- the rounds that a loop without a bound of its own is followed for
  pub fuel : ℕ

pub data Outcome {ℓ} (A : Type ℓ) : Type ℓ where
  returned : A → Outcome A
  panicked unfinished : Outcome A

pub Outcome-cases {ℓ} :
    {A : Type ℓ} (o : Outcome A)
    → ((a : A) × (o ≡ returned a)) ⊎ ((o ≡ panicked) ⊎ (o ≡ unfinished))
Outcome-cases (returned a) = inl (a, refl)
Outcome-cases panicked = inr (inl refl)
Outcome-cases unfinished = inr (inr refl)

abbrev pub M : Type 0 → Type 0
M A = World → Outcome A × World

module _ {A B : Type 0} where
  abbrev pub continue : Outcome A → (A → M B) → M B
  continue (returned a) f w = f a w
  continue panicked f w = (panicked, w)
  continue unfinished f w = (unfinished, w)

module _ {A : Type 0} where
  unfoldable pub pure : A → M A
  pure a w = (returned a, w)

  unfoldable pub panic : M A
  panic w = (panicked, w)

  unfoldable pub out_of_fuel : M A
  out_of_fuel w = (unfinished, w)

  -- Following a pointer.
  unfoldable pub deref : Option A → M A
  unfolding panic pure
  deref none = panic
  deref (some a) = pure a

  unfoldable pub gets : (World → A) → M A
  gets f w = (returned (f w), w)

abbrev pub done : M (Unit {0})
done = pure tt

unfoldable pub modify : (World → World) → M (Unit {0})
modify f w = (returned tt, f w)

-- `if b { m }`
unfoldable pub when : Bool → M (Unit {0}) → M (Unit {0})
unfolding pure
when true m = m
when false m = done

abbrev pub log : Event → World → World
log e w = record w { trace = e ∷ w.trace }

abbrev pub emit : Event → M (Unit {0})
emit e = modify (log e)

-- A call outside: the answer depends on the history, and both go into it.
unfoldable pub ask : {A : Type 0} → (List Event → A) → (A → Event) → M A
ask answer event w = let a = answer w.trace in (returned a, log (event a) w)

module _ (s : Server) where
  -- A call to GitHub of which only the error is looked at.
  abbrev pub write : (Option Error → Event) → M (Option Error)
  write event = ask (λ t. s.outside.write t event) event

  abbrev pub statement : Statement → M (Option Error)
  statement st = ask (λ t. s.outside.statement t st) (ran st)

infixl 5 ◌>>=◌ ◌>>◌
-- Opening this opens the actions above.
unfoldable pub ◌>>=◌ : {A B : Type 0} → M A → (A → M B) → M B
unfolding pure panic out_of_fuel deref gets modify when ask
◌>>=◌ m f w = continue (m w).0 f (m w).1

abbrev pub ◌>>◌ : {A B : Type 0} → M A → M B → M B
m >> n = m >>= λ _. n

-- `if err != nil { return err }`: go on with the value, or give the error back.
unfoldable pub attempt : {A B : Type 0} → M (Result A) → (A → M (Result B)) → M (Result B)
unfolding ◌>>=◌
attempt m f = do r ← m; elim r [ err e ↦ pure (err e) | ok a ↦ f a ]

-- An error with a message, by fmt.Errorf or errors.New, and one that wraps another.
abbrev pub error : String → Error
error msg = record { text = msg; rate_limit = false }

abbrev pub wrap : String → Error → Error
wrap msg e = error (msg +++ ": " +++ e.text)

-- `for _, a := range as { body }`; a `continue` in the body is an early `done`.
unfoldable pub for_each : {A : Type 0} → List A → (A → M (Unit {0})) → M (Unit {0})
unfolding ◌>>=◌
for_each [] body = done
for_each (a ∷ rest) body = body a >> for_each rest body

-- The same, where the body may also leave the loop: it gives `false` for a `return` or a `break`.
unfoldable pub for_while : {A : Type 0} → List A → (A → M Bool) → M (Unit {0})
unfolding ◌>>=◌
for_while [] body = done
for_while (a ∷ rest) body = do more ← body a; when more (for_while rest body)

-- s.commentLock.Lock(); defer s.commentLock.Unlock(): a panic unlocks too.
unfoldable pub with_comment_lock : {A : Type 0} → M A → M A
with_comment_lock m w = let r = m (log locked w) in (r.0, log unlocked r.1)

-- The deferred observation of how long a periodic task took: also after a panic.
unfoldable pub timed : {A : Type 0} → String → M A → M A
timed name m w = let r = m w in (r.0, log (counted "ObserveCronTaskDuration" name) r.1)

-- http.Error
abbrev pub http_error : String → ℕ → M (Unit {0})
http_error msg code = modify (λ w. record w {
  trace = responded code msg ∷ w.trace;
  writer = Response.write (Response.write_header code w.writer);
})

-- go f(…): the goroutine is noted, and runs later.
abbrev pub spawn : Task → M (Unit {0})
spawn t = modify (λ w. record w { tasks = t ∷ w.tasks })
