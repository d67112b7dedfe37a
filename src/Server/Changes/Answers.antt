-- ===== src/Server/Changes/Answers.antt =====
-- server/github.go and server/pull_request_handler.go: the answers to labels after a fetch.
use mattermost_mattermod.Base.{String, ◌≡◌, Option, none, some, List, arith}
use mattermost_mattermod.Model.{PullRequest, pr_key}
use mattermost_mattermod.World.{World, Event, insert_pr}
use mattermost_mattermod.World.Github.{GhPull, ok}
use mattermost_mattermod.World.Monad.{Server, returned}
use mattermost_mattermod.Store.PullRequests
use mattermost_mattermod.Store.PullRequests.RoundTrip.{stored}
use mattermost_mattermod.Server.Fetch.{get_pull_request_from_github}
use mattermost_mattermod.Server.Fetch.Stored.{find-get_pull_request_from_github}
use mattermost_mattermod.Server.Changes.{check_pull_request_for_changes}
use mattermost_mattermod.Server.Changes.Detection.{calls, check_pull_request_for_changes-calls}

stored-labels : (pr : PullRequest) (row : Option PullRequest) → (stored pr row).labels ≡ pr.labels
stored-labels pr none = ground arith
stored-labels pr (some row) = ground arith

-- Where the driver accepts new rows, checkPullRequestForChanges after a successful
-- GetPullRequestFromGithub calls nothing but the database: the row that it compares with was just
-- saved, so no label is ever new and no answer to a label is posted.
pub check_pull_request_for_changes_silent :
    (s : Server) (pull : GhPull) (action : String) (pr : PullRequest) (w : World)
    → ((t : List Event) (row : PullRequest) → s.outside.statement t (insert_pr row) ≡ none)
    → (get_pull_request_from_github s pull action w).0 ≡ returned (ok pr)
    → let w' = (get_pull_request_from_github s pull action w).1 in
      calls (check_pull_request_for_changes s pr w').1.trace ≡ calls w'.trace
check_pull_request_for_changes_silent s pull action pr w accepts h =
    let row = stored pr (PullRequests.find (pr_key pr) w.pull_requests) in
    check_pull_request_for_changes-calls s row pr (get_pull_request_from_github s pull action w).1
      (find-get_pull_request_from_github s pull action pr w accepts h)
      (stored-labels pr (PullRequests.find (pr_key pr) w.pull_requests))
