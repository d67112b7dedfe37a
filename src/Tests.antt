-- ===== src/Tests.antt =====
-- A small installation that the witnesses run on: one repository, one pull request of an outside
-- contributor, and answers of GitHub, the database and the webhooks under which everything works.
mod Merging
mod Storing
mod Locking
mod Events
mod CherryPicking
mod Listing
mod Running
mod Metering
mod Labelling
mod Migrating
mod Starting
use mattermost_mattermod.Base.{ℕ, zero, suc, String, true, false, Option, none, some, List, [], ◌∷◌}
use mattermost_mattermod.Model.{Time, PullRequest, Key}
use mattermost_mattermod.World.{World, Event, Outside, Statement, insert_pr}
use mattermost_mattermod.World.Github.{
  Error, ok, err, GhPull, GhIssue, Label, Comment, Page, CombinedStatus, Reviewers, MergeResult,
  body,
}
use mattermost_mattermod.World.Response.{new_wrapped_writer}
use mattermost_mattermod.World.Config.{LabelResponse, Repository, Config}
use mattermost_mattermod.World.Monad.{Server, error}

abbrev pub repository : Repository
repository = record {
  owner = "mattermost";
  name = "mattermod";
  build_status_context = "ci/build";
  greeting_team = "greeters";
  greeting_labels = "Contributor" ∷ "Triage" ∷ [];
}

abbrev pub config : Config
config = record {
  github_username = "mattermod";
  github_email = "mattermod@example.com";
  git_config_merge_rename_limit = "999";
  github_webhook_secret = "secret";
  org = "mattermost";
  username = "mattermod";
  auto_assigner_team = "core";
  auto_assigner_team_id = 7;
  repositories = repository ∷ [];
  block_pr_merge_labels = "Do Not Merge" ∷ "Awaiting PR" ∷ [];
  auto_pr_merge_label = "AutoMerge";
  translations_mattermost_webhook_url = "";
  translations_mattermost_message = "";
  translations_bot = "weblate";
  cla_exclusions_list = "weblate" ∷ [];
  cla_github_status_context = "cla";
  signed_cla_url = "https://example.com/cla.csv";
  pr_welcome_message = "Thanks";
  pr_labels = record { label = "Bug"; message = "Hello USERNAME" } ∷ [];
  issue_labels = [];
  issue_labels_to_clean_up = [];
  block_list_bots = "spambot" ∷ [];
  mattermost_webhook_url = "";
  mattermost_webhook_footer = "";
  days_until_stale = 30;
  exempt_stale_labels = [];
  stale_label = "stale";
  stale_comment = "This is stale.";
  repo_folder = "/repos";
  scripts_folder = "/scripts";
}

abbrev pub created : Time
created = record { unix = 1000; month = 1 }

abbrev pub pull : GhPull
pull = record {
  base_owner = "mattermost";
  base_name = "mattermod";
  number = 12;
  login = "carol";
  head_ref = "fix";
  head_sha = "abc";
  head_full_name = "carol/mattermod";
  state = some "open";
  url = "https://example.com/pull/12";
  created_at = created;
  updated_at = some 2000;
  merged = true;
  merge_commit_sha = "def";
  maintainer_can_modify = true;
  milestone_number = 3;
  milestone_title = "v6.1.0";
  mergeable_state = "clean";
  node_id = "node";
  diff_url = "https://example.com/pull/12.diff";
}

abbrev pub pr : PullRequest
pr = record {
  merged = some true;
  maintainer_can_modify = some true;
  milestone_number = some 3;
  milestone_title = some "v6.1.0";
  created_at = created;
  repo_owner = "mattermost";
  repo_name = "mattermod";
  full_name = "carol/mattermod";
  username = "carol";
  ref = "fix";
  sha = "abc";
  state = "open";
  build_status = "";
  build_conclusion = "";
  build_link = "";
  url = "https://example.com/pull/12";
  merge_commit_sha = "def";
  labels = "AutoMerge" ∷ "Do Not Merge" ∷ [];
  number = 12;
}

abbrev pub green : CombinedStatus
green = record { sha = "abc"; state = "success"; statuses = [] }

abbrev pub nobody : Reviewers
nobody = record { users = []; teams = [] }

abbrev pub comment : String → Comment
comment text = record { login = some "carol"; body = some text }

-- Two pages of comments.
abbrev pub comments : ℕ → Page Comment
comments zero = record {
  items = comment "one" ∷ [];
  status = 200;
  status_text = "200 OK";
  next_page = 2;
}
comments (suc n) = record {
  items = comment "two" ∷ [];
  status = 200;
  status_text = "200 OK";
  next_page = 0;
}

abbrev pub last_pulls : Page GhPull
last_pulls = record { items = pull ∷ []; status = 200; status_text = "200 OK"; next_page = 0 }

abbrev pub outside : Outside
outside = record {
  pull = λ t owner name number. ok pull;
  combined_status = λ t owner name sha. ok green;
  check_runs = λ t owner name sha. ok [];
  labels = λ t owner name number. ok [];
  comments = λ t owner name number page. ok (comments page);
  members = λ t org page.
      ok (record { items = "alice" ∷ []; status = 200; status_text = "200 OK"; next_page = 0 });
  reviewers = λ t owner name number. ok nobody;
  reviews = λ t owner name number. ok ("dave" ∷ "erin" ∷ []);
  teams = λ t owner name. ok (record { id = 7 } ∷ []);
  pulls = λ t owner name page. ok last_pulls;
  issues = λ t owner name page.
      ok (record { items = []; status = 200; status_text = "200 OK"; next_page = 0 });
  write = λ t event. none;
  merge = λ t owner name number sha method. ok (record { message = "merged"; sha = "def" });
  update = λ t owner name number sha. (some 202, none);
  statement = λ t statement. none;
  webhook = λ t url username text. none;
  fetch = λ t url. body "carol";
  execute = λ t dir args. ok "";
  stat = λ t path. true;
  now = λ t. 3000000;
  random = λ t n. 0;
  find_pr_url = λ out. out;
  rfc3339 = λ t. "";
  parse_template = λ text. none;
  execute_template = λ text needed username. ok text;
  sprintf = λ text. text;
  parse_multi_file_diff = λ text. ok [];
}

abbrev pub server : Server
server = record { config = config; outside = outside; fuel = 2 }

-- alice is a member of the organization, and the pull request is in the database.
abbrev pub world : World
world = record {
  trace = [];
  pull_requests = pr ∷ [];
  issues = [];
  org_members = "alice" ∷ "dan" ∷ [];
  queue = [];
  stopped = false;
  tasks = [];
  writer = new_wrapped_writer;
}
