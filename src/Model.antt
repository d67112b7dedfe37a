-- ===== src/Model.antt =====
-- model/pull_request.go and model/issue.go: what the program keeps of a pull request and an issue.
-- A pointer field is an `Option`; a time is its Unix second and the month that Go reads off it.
pub mod Keys
pub mod StringArray
use mattermost_mattermod.Base.{ℕ, String, Bool, false, Option, List, ◌==◌, nat_eq, ◌&&◌, value_or}

abbrev pub state_open : String
state_open = "open"

abbrev pub state_closed : String
state_closed = "closed"

abbrev pub mergeable_state_clean : String
mergeable_state_clean = "clean"

pub record Time : Type 0 where
  pub unix : ℕ
  pub month : ℕ

pub record PullRequest : Type 0 where
  pub merged : Option Bool
  pub maintainer_can_modify : Option Bool
  pub milestone_number : Option ℕ
  pub milestone_title : Option String
  pub created_at : Time
  pub repo_owner : String
  pub repo_name : String
  pub full_name : String
  pub username : String
  pub ref : String
  pub sha : String
  pub state : String
  pub build_status : String
  pub build_conclusion : String
  pub build_link : String
  pub url : String
  pub merge_commit_sha : String
  pub labels : List String
  pub number : ℕ

-- The getters give the zero value for a nil pointer.
unfoldable pub get_merged : PullRequest → Bool
get_merged pr = value_or false pr.merged

unfoldable pub get_maintainer_can_modify : PullRequest → Bool
get_maintainer_can_modify pr = value_or false pr.maintainer_can_modify

unfoldable pub get_milestone_number : PullRequest → ℕ
get_milestone_number pr = value_or 0 pr.milestone_number

unfoldable pub get_milestone_title : PullRequest → String
get_milestone_title pr = value_or "" pr.milestone_title

pub record Issue : Type 0 where
  pub repo_owner : String
  pub repo_name : String
  pub username : String
  pub state : String
  pub labels : List String
  pub number : ℕ

-- The primary key of both tables.
pub record Key : Type 0 where
  pub owner : String
  pub name : String
  pub number : ℕ

unfoldable pub key_eq : Key → Key → Bool
key_eq a b = (a.owner == b.owner) && (a.name == b.name) && nat_eq a.number b.number

abbrev pub pr_key : PullRequest → Key
pr_key pr = record { owner = pr.repo_owner; name = pr.repo_name; number = pr.number }

abbrev pub issue_key : Issue → Key
issue_key i = record { owner = i.repo_owner; name = i.repo_name; number = i.number }
