-- ===== src/World.antt =====
-- What a handler runs in. GitHub, the database driver, the webhooks and the clock are outside the
-- program: they are the record `Outside` of answers, each a function of the history so far, so a
-- theorem for every `Outside` is one for every behaviour of them. The history (`trace`, newest
-- first) records each call with its answer.
pub mod Github
pub mod Config
pub mod Monad
pub mod Frame
pub mod Response
use mattermost_mattermod.Base.{ℕ, String, Bool, Option, List}
use mattermost_mattermod.Model.{PullRequest, Issue, Key}
use mattermost_mattermod.Metrics.{Sample}
use Response.{Writer}
use Github.{
  Error, Result, GhPull, GhIssue, Label, Comment, Page, CombinedStatus, CheckRun, RepoStatus, Team,
  Reviewers, MergeResult, Review, Fetched, FileDiff,
}

-- The SQL statements of package store.
pub data Statement : Type 0 where
  insert_pr update_pr : PullRequest → Statement
  select_pr : Key → Statement
  select_open : Statement
  insert_issue update_issue : Issue → Statement
  select_issue : Key → Statement

pub data Event : Type 0 where
  -- calls that read from GitHub, with their answers
  got_pull : String → String → ℕ → Result GhPull → Event
  got_combined_status : String → String → String → Result CombinedStatus → Event
  got_check_runs : String → String → String → Result (List CheckRun) → Event
  got_labels : String → String → ℕ → Result (List Label) → Event
  got_comments : String → String → ℕ → ℕ → Result (Page Comment) → Event
  got_members : String → ℕ → Result (Page String) → Event
  got_reviewers : String → String → ℕ → Result Reviewers → Event
  got_reviews : String → String → ℕ → Result (List String) → Event
  got_teams : String → String → Result (List Team) → Event
  listed_pulls : String → String → ℕ → Result (Page GhPull) → Event
  listed_issues : String → String → ℕ → Result (Page GhIssue) → Event
  -- calls that write to GitHub, with the error that they gave
  created_comment : String → String → ℕ → String → Option Error → Event
  created_status : String → String → String → RepoStatus → Option Error → Event
  added_labels : String → String → ℕ → List String → Option Error → Event
  removed_label : String → String → ℕ → String → Option Error → Event
  requested_reviewers : String → String → ℕ → List String → List String → Option Error → Event
  added_assignees : String → String → ℕ → List String → Option Error → Event
  set_milestone : String → String → ℕ → ℕ → Option Error → Event
  merged_pull : String → String → ℕ → String → String → Result MergeResult → Event
  updated_branch : String → String → ℕ → String → Option ℕ → Option Error → Event
  created_review : String → String → ℕ → Review → Option Error → Event
  -- the rest
  ran : Statement → Option Error → Event
  posted : String → String → String → Option Error → Event
  fetched : String → Fetched → Event
  executed : String → List String → Result String → Event
  counted : String → String → Event
  responded : ℕ → String → Event
  wrote : String → Event
  observed : Sample → Event
  locked unlocked : Event

-- A request for a cherry pick, and a goroutine that a handler starts.
pub record CherryPickRequest : Type 0 where
  pub pr : PullRequest
  pub milestone : Option ℕ
  pub version : String

pub data Task : Type 0 where
  check_cherry_pick clean_up_labels : PullRequest → Task

pub record World : Type 0 where
  pub trace : List Event
  pub pull_requests : List PullRequest
  pub issues : List Issue
  pub org_members : List String
  pub queue : List CherryPickRequest
  pub stopped : Bool
  pub tasks : List Task
  -- the response writer of the request that is handled
  pub writer : Writer

-- The answers of everything that is not the program.
pub record Outside : Type 0 where
  pub pull : List Event → String → String → ℕ → Result GhPull
  pub combined_status : List Event → String → String → String → Result CombinedStatus
  pub check_runs : List Event → String → String → String → Result (List CheckRun)
  pub labels : List Event → String → String → ℕ → Result (List Label)
  pub comments : List Event → String → String → ℕ → ℕ → Result (Page Comment)
  pub members : List Event → String → ℕ → Result (Page String)
  pub reviewers : List Event → String → String → ℕ → Result Reviewers
  pub reviews : List Event → String → String → ℕ → Result (List String)
  pub teams : List Event → String → String → Result (List Team)
  pub pulls : List Event → String → String → ℕ → Result (Page GhPull)
  pub issues : List Event → String → String → ℕ → Result (Page GhIssue)
  pub write : List Event → (Option Error → Event) → Option Error
  pub merge : List Event → String → String → ℕ → String → String → Result MergeResult
  pub update : List Event → String → String → ℕ → String → Option ℕ × Option Error
  pub statement : List Event → Statement → Option Error
  pub webhook : List Event → String → String → String → Option Error
  pub fetch : List Event → String → Fetched
  pub execute : List Event → String → List String → Result String
  pub stat : List Event → String → Bool
  pub now : List Event → ℕ
  pub random : List Event → ℕ → ℕ
  pub find_pr_url : String → String
  pub rfc3339 : List Event → String
  -- text/template, and fmt.Sprintf of a message without arguments
  pub parse_template : String → Option Error
  pub execute_template : String → Bool → String → Result String
  pub sprintf : String → String
  -- the parser of the package go-diff
  pub parse_multi_file_diff : String → Result (List FileDiff)
