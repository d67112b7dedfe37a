-- ===== src/Server/Review/Position.antt =====
-- server/review.go: the position that a review gets.
use mathlib.Core.Option
use mattermost_mattermod.Base.{
  ℕ, suc, ◌+◌, String, true, false, ◌≡◌, refl, Option, none, some, List, [], ◌∷◌, ◌++◌, arith,
  length, if◌then◌else◌, Option-cases, inl, inr,
}
use mattermost_mattermod.Base.Text.{split}
use mattermost_mattermod.Server.Review.{logs_error, scan_lines, scan_hunks}

-- The place of the first such line, counted from 1.
abbrev pub first_error : List String → Option ℕ
first_error [] = none
first_error (line ∷ lines) =
    if logs_error line then some 1 else Option.map (λ n. suc n) (first_error lines)

-- All lines of the hunks of a file.
abbrev pub all_lines : List String → List String
all_lines [] = []
all_lines (hunk ∷ hunks) = split hunk 10 ++ all_lines hunks

first_error-append :
    (xs ys : List String)
    → first_error (xs ++ ys) ≡ elim (first_error xs) [
      | some n ↦ some n
      | none ↦ Option.map (λ n. length xs + n) (first_error ys)
    ]
first_error-append [] ys = elim (Option-cases (first_error ys)) [
  | inl q ↦ ground arith
  | inr (n, q) ↦ ground arith
]
first_error-append (x ∷ xs) ys = elim (Option-cases (first_error ys)) [
  | inl q ↦ ground (arith, first_error-append xs ys)
  | inr (n, q) ↦ ground (arith, first_error-append xs ys)
]

scan_lines_lem :
    (position : ℕ) (lines : List String)
    → scan_lines position lines ≡ elim (first_error lines) [
      | some n ↦ (true, position + n)
      | none ↦ (false, position + length lines)
    ]
unfolding scan_lines
scan_lines_lem position [] = ground arith
scan_lines_lem position (line ∷ lines) = ground (arith, scan_lines_lem (suc position) lines)

-- The position of a review is that of the first added line with mlog.Error or mlog.Critical among all
-- lines of the file's hunks, counted from 1 through the hunks; there is none exactly if there is no
-- such line.
pub scan_hunks_lem :
    (position : ℕ) (hunks : List String)
    → scan_hunks position hunks ≡ Option.map (λ n. position + n) (first_error (all_lines hunks))
unfolding scan_hunks
scan_hunks_lem position [] = refl
scan_hunks_lem position (hunk ∷ hunks) = ground (
  arith,
  scan_lines_lem position (split hunk 10),
  first_error-append (split hunk 10) (all_lines hunks),
  scan_hunks_lem (position + length (split hunk 10)) hunks,
)
