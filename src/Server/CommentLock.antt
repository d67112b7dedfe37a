-- ===== src/Server/CommentLock.antt =====
-- server/issue_handler.go: the goroutines that run handleIssueLabeled for one issue at once. Each
-- process has a comment lock. A goroutine is here one call of it, so one that handles two labels is
-- two, one after the other; what they do outside GitHub's comments is left out.
-- handlePRLabeled of server/pull_request_handler.go does the same with the configured PrLabels.
pub mod Counts
pub mod Once
pub mod Progress
pub mod Source
pub mod Twice
use mattermost_mattermod.Base.{
  ℕ, ◌+◌, String, Bool, true, false, ◌||◌, ◌&&◌, Option, none, some, List, [], ◌∷◌, ◌++◌, ◌==◌, ◌≡◌,
  nat_eq, if◌then◌else◌,
}
use mattermost_mattermod.Base.Text.{contains, replace_all}
use mattermost_mattermod.World.Config.{LabelResponse}

-- A comment, with its author and its text.
pub record Post : Type 0 where
  pub user : String
  pub body : String

-- messageByUserContains
unfoldable pub said : List Post → String → String → Bool
unfolding contains
said [] username text = false
said (post ∷ posts) username text =
    (post.user == username && contains post.body text) || said posts username text

-- The texts that the loop over the configured answers considers for a label.
unfoldable pub answers : List LabelResponse → String → String → List String
unfolding replace_all
answers [] username added_label = []
answers (label ∷ labels) username added_label =
    let rest = answers labels username added_label in
    if label.label == added_label
    then replace_all label.message "USERNAME" username ∷ rest
    else rest

-- How far a goroutine is: in front of the lock, behind it, in the loop over the answers with the
-- comments that it has read, or behind the deferred Unlock.
pub data Phase : Type 0 where
  waiting locked : List String → Phase
  answering : List Post → List String → Phase
  returned : Phase

-- For each process the goroutine that holds its lock; the issue's comments; the goroutines.
pub record State : Type 0 where
  pub holder : ℕ → Option ℕ
  pub comments : List Post
  pub phase : ℕ → Phase

abbrev pub set {ℓ} : {A : Type ℓ} → ℕ → A → (ℕ → A) → ℕ → A
set i a f j = if nat_eq i j then a else f j

-- The goroutine goes on, and leaves the locks alone.
abbrev pub goes : ℕ → Phase → State → State
goes i p s = record s { phase = set i p s.phase }

-- The goroutine goes on, and its process's lock is taken by it or free.
abbrev pub locks : (ℕ → ℕ) → Option ℕ → ℕ → Phase → State → State
locks home o i p s = record (goes i p s) { holder = set (home i) o s.holder }

abbrev pub comment : Post → State → State
comment p s = record s { comments = s.comments ++ p ∷ [] }

-- Is it that answer of the bot?
abbrev pub is_answer : String → String → Post → Bool
is_answer bot m p = p.user == bot && p.body == m

-- One step, in processes that `home` gives for the goroutines. A call of GitHub may fail; a comment
-- that is posted is in the next listing. At any time someone may post another comment than the answer
-- `m` of the bot.
pub data Step (bot m : String) (home : ℕ → ℕ) (s : State) : State → Type 0 where
  lock :
      (i : ℕ) (ms : List String)
      → s.phase i ≡ waiting ms
      → s.holder (home i) ≡ none
      → Step bot m home s (locks home (some i) i (locked ms) s)
  list :
      (i : ℕ) (ms : List String)
      → s.phase i ≡ locked ms
      → Step bot m home s (goes i (answering s.comments ms) s)
  list_fails :
      (i : ℕ) (ms : List String)
      → s.phase i ≡ locked ms
      → Step bot m home s (locks home none i returned s)
  skip :
      (i : ℕ) (seen : List Post) (x : String) (ms : List String)
      → s.phase i ≡ answering seen (x ∷ ms)
      → said seen bot x ≡ true
      → Step bot m home s (goes i (answering seen ms) s)
  post :
      (i : ℕ) (seen : List Post) (x : String) (ms : List String)
      → s.phase i ≡ answering seen (x ∷ ms)
      → said seen bot x ≡ false
      → Step bot m home s (comment (record { user = bot; body = x }) (goes i (answering seen ms) s))
  post_fails :
      (i : ℕ) (seen : List Post) (x : String) (ms : List String)
      → s.phase i ≡ answering seen (x ∷ ms)
      → said seen bot x ≡ false
      → Step bot m home s (goes i (answering seen ms) s)
  unlock :
      (i : ℕ) (seen : List Post)
      → s.phase i ≡ answering seen []
      → Step bot m home s (locks home none i returned s)
  others : (p : Post) → is_answer bot m p ≡ false → Step bot m home s (comment p s)

-- Any number of steps.
pub data Runs (bot m : String) (home : ℕ → ℕ) : State → State → Type 0 where
  stop : {s : State} → Runs bot m home s s
  go_on : {s t u : State} → Step bot m home s t → Runs bot m home t u → Runs bot m home s u

-- How often the answer is among the comments.
unfoldable pub times : String → String → List Post → ℕ
times bot m [] = 0
times bot m (p ∷ ps) = (if is_answer bot m p then 1 else 0) + times bot m ps

-- How often the text is among the answers.
unfoldable pub occurrences : String → List String → ℕ
occurrences m [] = 0
occurrences m (x ∷ xs) = (if x == m then 1 else 0) + occurrences m xs
