-- ===== src/Tests/CherryPicking.antt =====
-- server/cherry_pick.go: runs of its theorems.
use mattermost_mattermod.Base.{true, ◌≡◌, refl, none, [], ◌∷◌}
use mattermost_mattermod.World.Monad.{Server, returned}
use mattermost_mattermod.Server.IssueCommentEvent.{IssueCommentEvent}
use mattermost_mattermod.Server.CherryPick.{handle_cherry_pick}
use mattermost_mattermod.Server.CherryPick.Queue.{handle_cherry_pick_guard}
use mattermost_mattermod.Server.CherryPick.Job.{
  do_cherry_pick, work_off, listen_cherry_pick_requests,
}
use mattermost_mattermod.Server.CherryPick.Job.Order.{Works, listen_cherry_pick_requests-drop}
use mattermost_mattermod.Server.Github.{comment_on}
use mattermost_mattermod.World.{World, CherryPickRequest}
use mattermost_mattermod.Tests.{server, outside, config, world, pr}

handle_cherry_pick_guard_example :
    (handle_cherry_pick server "eve" "/cherry-pick release-6.0" pr world).1.queue ≡ []
handle_cherry_pick_guard_example =
    handle_cherry_pick_guard server "eve" "/cherry-pick release-6.0" pr world refl

abbrev asked : IssueCommentEvent
asked = record {
  comment = record { login = "alice"; body = " please /cherry-pick release-6.0 "; html_url = "" };
  issue = record {
    repo_owner = "mattermost";
    repo_name = "mattermod";
    number = 12;
    login = "carol";
    state = "open";
    html_url = "";
    milestone = none;
    is_pull_request = true;
  };
  repo_owner = "mattermost";
  repo_name = "mattermod";
  action = "created";
}

abbrev request : CherryPickRequest
request = record { pr = pr; milestone = none; version = "release-6.0" }

-- A server without a folder for the checkouts refuses every request.
abbrev without_folder : Server
without_folder = record { config = record config { repo_folder = "" }; outside = outside; fuel = 2 }

abbrev waiting : World
waiting = record world { queue = request ∷ request ∷ [] }

refuses : Works without_folder request
unfolding work_off do_cherry_pick comment_on
refuses w = refl

listen_cherry_pick_requests-drop_example :
    ((listen_cherry_pick_requests without_folder 1 waiting).0 ≡ returned tt)
    × ((listen_cherry_pick_requests without_folder 1 waiting).1.queue ≡ request ∷ [])
listen_cherry_pick_requests-drop_example =
    listen_cherry_pick_requests-drop without_folder 1 (request ∷ request ∷ []) waiting refl
      (refuses, (refuses, tt))
