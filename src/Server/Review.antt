-- ===== src/Server/Review.antt =====
-- server/review.go: the reminder on a line that logs an error.
pub mod Position
use mattermost_mattermod.Base.{
  ℕ, suc, String, Bool, true, false, ◌&&◌, ◌||◌, Option, none, some, List, [], ◌∷◌, if◌then◌else◌,
}
use mattermost_mattermod.Base.Text.{◌+++◌, itoa, contains, has_prefix, split, trim_prefix}
use mattermost_mattermod.Model.{PullRequest}
use mattermost_mattermod.World.{fetched, created_review}
use mattermost_mattermod.World.Github.{
  Error, Result, ok, err, Review, FileDiff, Fetched, bad_request, no_response, no_body, body,
}
use mattermost_mattermod.World.Monad.{Server, M, ◌>>=◌, pure, ask, write, wrap}
use mattermost_mattermod.Server.Members.{is_org_member}

abbrev pub mlog_review_comment_body : String
mlog_review_comment_body =
    "Gentle reminder to check our logging [principles](https://developers.mattermost.com/contribute/server/style-guide/#log-levels) before merging this change."

-- An added line that logs an error or something critical.
unfoldable pub logs_error : String → Bool
unfolding has_prefix contains
logs_error line =
    has_prefix line "+" && (contains line "mlog.Error(" || contains line "mlog.Critical(")

-- The loop over the lines of a hunk, from the position of the line before: the position of the first
-- such line, or that of the last line.
unfoldable pub scan_lines : ℕ → List String → Bool × ℕ
unfolding logs_error
scan_lines position [] = (false, position)
scan_lines position (line ∷ lines) =
    if logs_error line then (true, suc position) else scan_lines (suc position) lines

-- The loop over the hunks of a file, and that over the files.
unfoldable pub scan_hunks : ℕ → List String → Option ℕ
unfolding scan_lines
scan_hunks position [] = none
scan_hunks position (hunk ∷ hunks) =
    let r = scan_lines position (split hunk 10) in if r.0 then some r.1 else scan_hunks r.1 hunks

unfoldable pub scan_files : List FileDiff → Option (String × ℕ)
unfolding scan_hunks
scan_files [] = none
scan_files (file ∷ files) = elim (scan_hunks 0 file.hunks) [
  | some position ↦ some (trim_prefix file.new_name "b/", position)
  | none ↦ scan_files files
]

-- getRawDiff
unfoldable pub get_raw_diff : Server → String → M (Result String)
unfolding ◌>>=◌
get_raw_diff s url = do
  r ← ask (λ t. s.outside.fetch t url) (fetched url)
  elim r [
    | bad_request e ↦ pure (err e)
    | no_response e ↦ pure (err e)
    | no_body e ↦ pure (err e)
    | body text ↦ pure (ok text)
  ]

-- The review of the first line that was found.
create_review : Server → PullRequest → String → Option (String × ℕ) → M (Option Error)
unfolding ◌>>=◌
create_review s pr node_id none = pure none
create_review s pr node_id (some (path, position)) = do
  e ← write s (
      created_review pr.repo_owner pr.repo_name pr.number (record {
        node_id = node_id;
        path = path;
        position = position;
        body = mlog_review_comment_body;
      }))
  elim e [
    | none ↦ pure none
    | some e ↦ pure (
        some (
          wrap
            ("could not create the review for PR "
              +++ pr.repo_owner
              +++ "/"
              +++ pr.repo_name
              +++ "#"
              +++ itoa pr.number)
            e))
  ]

-- The part of reviewMlog for an author outside the organization.
review_diff : Server → PullRequest → String → String → M (Option Error)
unfolding ◌>>=◌ get_raw_diff create_review scan_files
review_diff s pr node_id diff_url = do
  r ← get_raw_diff s diff_url
  elim r [
    | err e ↦ pure (some (wrap "could not retrieve diff" e))
    | ok text ↦ elim (s.outside.parse_multi_file_diff text) [
      | err e ↦ pure (some (wrap "could not parse file diff" e))
      | ok files ↦ create_review s pr node_id (scan_files files)
    ]
  ]

-- reviewMlog
unfoldable pub review_mlog : Server → PullRequest → String → String → M (Option Error)
unfolding ◌>>=◌ is_org_member review_diff
review_mlog s pr node_id diff_url = do
  member ← is_org_member pr.username
  if member then pure none else review_diff s pr node_id diff_url
