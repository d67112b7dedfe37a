-- ===== src/Tests/Events.antt =====
-- The handlers of the webhook's events: runs of their theorems.
use mattermost_mattermod.Base.{List, ◌∷◌, [], String, true, false, ◌≡◌, refl, Option, some}
use mattermost_mattermod.Base.Text.{split2, split, trim_space, to_lower}
use mattermost_mattermod.Model.{PullRequest, Key}
use mattermost_mattermod.World.{observed}
use mattermost_mattermod.World.Github.{Error, ok, err, GhIssue, Label}
use mattermost_mattermod.World.Monad.{returned, log, error}
use mattermost_mattermod.Store.PullRequests
use mattermost_mattermod.Server.BlockMerge.{state_success}
use mattermost_mattermod.Server.Cla.{handle_check_cla}
use mattermost_mattermod.Server.Cla.Verdict.{ends_with, handle_check_cla_lem}
use mattermost_mattermod.Server.PullRequestEvent.{PullRequestEvent}
use mattermost_mattermod.Server.IssueEvent.{IssueEvent, pr_from_issue_handler}
use mattermost_mattermod.Server.IssueEvent.Milestone.{milestone_of, pr_from_issue_handler-milestone}
use mattermost_mattermod.Server.IssueCommentEvent.{IssueCommentEvent}
use mattermost_mattermod.Server.Http.{github_event, Request, Decoded, pr_event}
use mattermost_mattermod.Server.Http.Authentication.{
  refused, wrapped, settled, pr_event-authentic, pr_event-with_recovery, pr_event-observed,
}
use mattermost_mattermod.Metrics.{labelled, http_requests_duration}
use mattermost_mattermod.Tests.{server, world, pr, pull}

-- A stand-in for the hash of the secret and the body.
abbrev keyed : String → String → String
keyed secret body = secret

abbrev forged : Request
forged = record {
  method = "POST";
  uri = "/pr_event";
  path = "/pr_event";
  event = "pull_request";
  signature = "sha1=guess";
  body = ok "{}";
}

abbrev undecoded : Decoded
undecoded = record {
  ping_event = false;
  issues = err (error "EOF");
  issue_comment = err (error "EOF");
  pull_request = err (error "EOF");
}

pr_event-authentic_example :
    pr_event server keyed (λ body. undecoded) forged world ≡ (returned tt, refused forged 401 world)
unfolding split2
pr_event-authentic_example =
    pr_event-authentic server keyed (λ body. undecoded) forged world refl refl

handle_check_cla_lem_example :
    (e : Option Error) × ((handle_check_cla server pr world).0 ≡ returned (false, e))
    × (ends_with pr state_success (handle_check_cla server pr world).1.trace ≡ true)
unfolding split to_lower trim_space
handle_check_cla_lem_example = handle_check_cla_lem server pr "carol" world refl (λ t. refl)

abbrev event_of : String → Option Label → PullRequestEvent
event_of action label = record {
  action = action;
  pull_request = pull;
  label = label;
  repo_name = some "mattermod";
}

abbrev by_alice : PullRequest
by_alice = record pr { username = "alice" }

abbrev issue : GhIssue
issue = record {
  repo_owner = "mattermost";
  repo_name = "mattermod";
  number = 12;
  login = "carol";
  state = "open";
  html_url = "https://github.com/mattermost/mattermod/pull/12";
  milestone = some (4, "v6.2.0");
  is_pull_request = true;
}

abbrev milestoned : IssueEvent
milestoned = record { issue = issue; repo_owner = "mattermost"; repo_name = "mattermod" }

abbrev key : Key
key = record { owner = "mattermost"; name = "mattermod"; number = 12 }

pr_from_issue_handler-milestone_example :
    milestone_of
      (PullRequests.find key (pr_from_issue_handler server milestoned world).1.pull_requests)
    ≡ milestone_of (PullRequests.find key world.pull_requests)
pr_from_issue_handler-milestone_example = pr_from_issue_handler-milestone server milestoned world

abbrev chat : IssueCommentEvent
chat = record {
  comment = record { login = "eve"; body = "Nice"; html_url = "" };
  issue = issue;
  repo_owner = "mattermost";
  repo_name = "mattermod";
  action = "created";
}

abbrev fetched_pr : PullRequest
fetched_pr = record pr { labels = [] }

abbrev genuine : Request
genuine = record {
  method = "POST";
  uri = "/pr_event";
  path = "/pr_event";
  event = "push";
  signature = "sha1=secret";
  body = ok "{}";
}

pr_event-with_recovery_example :
    pr_event server keyed (λ body. undecoded) genuine world
    ≡ settled genuine (github_event server "push" undecoded (wrapped world))
unfolding split2
pr_event-with_recovery_example =
    pr_event-with_recovery server keyed (λ body. undecoded) genuine "{}" world refl refl refl

abbrev ping : Request
ping = record genuine { event = "ping" }

abbrev hook : Decoded
hook = record undecoded { ping_event = true }

pr_event-observed_example :
    let labels : List (String × String) =
      ("method", "/pr_event") ∷ ("handler", "POST") ∷ ("status_code", "0") ∷ [] in
    pr_event server keyed (λ body. hook) ping world
    ≡ (returned tt, log (observed (labelled http_requests_duration labels)) (wrapped world))
unfolding split2
pr_event-observed_example =
    pr_event-observed server keyed (λ body. hook) ping "{}" world refl refl refl refl refl
