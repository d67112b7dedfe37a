-- ===== src/World/Github.antt =====
-- What the GitHub client hands over: the fields that the program reads. A pointer that the program
-- reads through a getter is the value that the getter gives; one that it follows is an `Option`.
use mattermost_mattermod.Base.{ℕ, String, Bool, Option, List, ◌≡◌, refl, ◌⊎◌, inl, inr}
use mattermost_mattermod.Model.{Time}

-- An error: its text, and whether it is a *github.RateLimitError.
pub record Error : Type 0 where
  pub text : String
  pub rate_limit : Bool

pub data Result {ℓ} (A : Type ℓ) : Type ℓ where
  ok : A → Result A
  err : Error → Result A

pub Result-cases {ℓ} :
    {A : Type ℓ} (r : Result A) → ((a : A) × (r ≡ ok a)) ⊎ ((e : Error) × (r ≡ err e))
Result-cases (ok a) = inl (a, refl)
Result-cases (err e) = inr (e, refl)

pub record GhPull : Type 0 where
  pub base_owner : String
  pub base_name : String
  pub number : ℕ
  pub login : String
  pub head_ref : String
  pub head_sha : String
  pub head_full_name : String
  pub state : Option String
  pub url : String
  pub created_at : Time
  pub updated_at : Option ℕ
  pub merged : Bool
  pub merge_commit_sha : String
  pub maintainer_can_modify : Bool
  pub milestone_number : ℕ
  pub milestone_title : String
  pub mergeable_state : String
  pub node_id : String
  pub diff_url : String

pub record GhIssue : Type 0 where
  pub repo_owner : String
  pub repo_name : String
  pub number : ℕ
  pub login : String
  pub state : String
  pub html_url : String
  pub milestone : Option (ℕ × String)
  pub is_pull_request : Bool

pub record Label : Type 0 where
  pub name : Option String

pub record Comment : Type 0 where
  pub login : Option String
  pub body : Option String

-- One page of a listing: the HTTP status of the response, as a number and in words, and the next page's
-- number, 0 on the last page.
pub record Page {ℓ} (A : Type ℓ) : Type ℓ where
  pub items : List A
  pub status : ℕ
  pub status_text : String
  pub next_page : ℕ

pub record Status : Type 0 where
  pub context : String
  pub state : String
  pub target_url : String

pub record CombinedStatus : Type 0 where
  pub sha : String
  pub state : String
  pub statuses : List Status

pub record CheckRun : Type 0 where
  pub name : String
  pub status : String
  pub conclusion : String
  pub html_url : String

-- A commit status that the program sets.
pub record RepoStatus : Type 0 where
  pub state : String
  pub description : String
  pub target_url : String
  pub context : String

pub record Team : Type 0 where
  pub id : ℕ

pub record Reviewers : Type 0 where
  pub users : List String
  pub teams : List String

pub record MergeResult : Type 0 where
  pub message : String
  pub sha : String

pub record Review : Type 0 where
  pub node_id : String
  pub path : String
  pub position : ℕ
  pub body : String

-- An HTTP GET by the program itself, and how far it gets.
pub data Fetched : Type 0 where
  bad_request no_response no_body : Error → Fetched
  body : String → Fetched

pub record FileDiff : Type 0 where
  pub new_name : String
  pub hunks : List String
