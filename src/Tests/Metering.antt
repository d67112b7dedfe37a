-- ===== src/Tests/Metering.antt =====
-- The transports of package server: runs of their theorems.
use mattermost_mattermod.Base.{◌≡◌, ◌≤◌, refl, String, none, some, [], length}
use mattermost_mattermod.Base.Text.{split}
use mattermost_mattermod.World.Github.{ok}
use mattermost_mattermod.World.Monad.{returned}
use mattermost_mattermod.Server.Transport.{
  HttpRequest, HttpResponse, readable, RoundTripper, get_github_request_path, metrics_round_trip,
}
use mattermost_mattermod.Server.Transport.Path.{get_github_request_path-parts}
use mattermost_mattermod.Server.Transport.Transparency.{metrics_round_trip-response}

abbrev comments_path : String
comments_path = "/repos/mattermost/mattermod/issues/12/comments"

get_github_request_path-parts_example :
    (length (split (get_github_request_path comments_path) b'/') ≤ 5)
    × (get_github_request_path (get_github_request_path comments_path)
        ≡ get_github_request_path comments_path)
get_github_request_path-parts_example = get_github_request_path-parts comments_path

abbrev request : HttpRequest
request = record { method = "GET"; host = "api.github.com"; path = comments_path }

abbrev forbidden : HttpResponse
forbidden = record { status_code = 403; from_cache = ""; body = readable "API rate limit exceeded" }

abbrev base : RoundTripper
base req = (returned (some forbidden, none), [])

metrics_round_trip-response_example :
    (metrics_round_trip (λ bytes. ok bytes) base request).0 ≡ returned (some forbidden, none)
metrics_round_trip-response_example =
    metrics_round_trip-response (λ bytes. ok bytes) base request forbidden none [] refl refl
