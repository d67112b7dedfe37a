-- ===== src/Base/Text/Split.antt =====
-- strings.Split and strings.Join: parts without the separator come back.
use Prim.Native.Char.{Char, code}
use Prim.Native.Nat.{ℕ}
use Prim.Native.String
use Prim.Native.String.{String}
use mathlib.Core.Path.{◌≡◌, refl, ap, ◌∙◌}
use mathlib.Core.Bool.{Bool, true, false, not, ◌&&◌}
use mathlib.Core.Logic.{inl, inr}
use mathlib.Core.List.{List, [], ◌∷◌}
use native.Mathlib.Omega.{arith}
use text.Mathlib.TextLemmas.{nil-append, cons-append}
use mattermost_mattermod.Base.Tests.{nat_eq, Bool-cases}
use mattermost_mattermod.Base.Lists.{All}
use mattermost_mattermod.Base.Text.{split, join, cons_part}

-- The text does not have the character.
unfoldable pub free : ℕ → String → Bool
free sep String.[] = true
free sep (String.◌∷◌ c s) = not (nat_eq (code c) sep) && free sep s

abbrev pub Free : ℕ → String → Type 0
Free sep s = free sep s ≡ true

cons_part-Free :
    (sep : ℕ) (c : Char) (ps : List String)
    → nat_eq (code c) sep ≡ false
    → All (Free sep) ps
    → All (Free sep) (cons_part c ps)
unfolding cons_part free
cons_part-Free sep c [] h ps = (ground arith, tt)
cons_part-Free sep c (p ∷ rest) h ps = (ground (arith, ps.0), ps.1)

pub split-Free : (sep : ℕ) (s : String) → All (Free sep) (split s sep)
unfolding split free
split-Free sep String.[] = (refl, tt)
split-Free sep (String.◌∷◌ c s) =
    let rest = split-Free sep s in
    elim (Bool-cases (nat_eq (code c) sep)) [
      | inl hit ↦ rw hit (refl, rest)
      | inr miss ↦ rw miss (cons_part-Free sep c (split s sep) miss rest)
    ]

-- A part without the separator is all there is of the text.
split-whole : (sep : ℕ) (p : String) → Free sep p → split p sep ≡ p ∷ []
unfolding split free cons_part
split-whole sep String.[] h = refl
split-whole sep (String.◌∷◌ c p) h = ground (arith, split-whole sep p)

-- A part without a slash is the first of the text that goes on with one.
split-part :
    (p t : String) → Free b'/' p → split (String.◌++◌ p (String.◌++◌ "/" t)) b'/' ≡ p ∷ split t b'/'
unfolding split free cons_part
split-part String.[] t h =
    rw (nil-append (String.◌++◌ "/" t), cons-append "/" String.[] t, nil-append t) refl
split-part (String.◌∷◌ c p) t h =
    rw (cons-append c p (String.◌++◌ "/" t)) (ground (arith, split-part p t))

pub split-join :
    (p : String) (ps : List String)
    → All (Free b'/') (p ∷ ps)
    → split (join (p ∷ ps) "/") b'/' ≡ p ∷ ps
unfolding join
split-join p [] h = split-whole b'/' p h.0
split-join p (q ∷ ps) h =
    split-part p (join (q ∷ ps) "/") h.0 ∙ ap (λ rest. p ∷ rest) (split-join q ps h.1)
