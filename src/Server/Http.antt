-- ===== src/Server/Http.antt =====
-- server/server.go, server/validate_signature.go and server/response_writer_wrapper.go: a request on
-- its way through the middleware to the handler of its event.
pub mod Authentication
pub mod Sound
use mattermost_mattermod.Base.{
  ℕ, String, Bool, true, false, Option, none, some, List, [], ◌∷◌, ◌==◌, not, if◌then◌else◌,
}
use mattermost_mattermod.Base.Text.{◌+++◌, split2, itoa}
use mattermost_mattermod.World.{World, responded, wrote, observed}
use mattermost_mattermod.World.Github.{Error, Result, ok, err}
use mattermost_mattermod.World.Monad.{
  Server, M, Outcome, returned, panicked, unfinished, ◌>>=◌, ◌>>◌, pure, done, deref, emit, gets,
  modify, http_error, error,
}
use mattermost_mattermod.World.Response
use mattermost_mattermod.World.Response.{new_wrapped_writer}
use mattermost_mattermod.Metrics.{provider, observe_http_request_duration}
use mattermost_mattermod.Server.PullRequestEvent.{PullRequestEvent, pull_request_event_handler}
use mattermost_mattermod.Server.IssueEvent.{
  IssueEvent, IssuePayload, issue_event_from_json, issue_event_handler, pr_from_issue_handler,
}
use mattermost_mattermod.Server.IssueCommentEvent.{
  IssueCommentPayload, issue_comment_event_from_json, issue_comment_event_handler,
}

-- What the JSON decoder reads in a body, for each event.
pub record Decoded : Type 0 where
  pub ping_event : Bool
  pub issues : Result IssuePayload
  pub issue_comment : Result IssueCommentPayload
  pub pull_request : Result PullRequestEvent

pub record Request : Type 0 where
  pub method : String
  -- r.RequestURI and r.URL.Path
  pub uri : String
  pub path : String
  pub event : String
  pub signature : String
  -- the body, or the error of reading it
  pub body : Result String

-- The case "issues": an issue is handled as one, and a pull request has its milestone updated.
issues_event : Server → Result IssuePayload → M (Unit {0})
unfolding ◌>>=◌ issue_event_from_json issue_event_handler pr_from_issue_handler
issues_event s payload = elim (issue_event_from_json payload) [
  | err e ↦ http_error e.text 400
  | ok event ↦
      if event.issue.is_pull_request
      then pr_from_issue_handler s event
      else issue_event_handler s (ok event)
]

-- githubEvent
unfoldable pub github_event : Server → String → Decoded → M (Unit {0})
unfolding ◌>>=◌ issues_event issue_comment_event_handler issue_comment_event_from_json
    pull_request_event_handler
github_event s event decoded =
    if event == "ping"
    then if not decoded.ping_event then http_error "could not parse ping event" 400 else done
    else if event == "issues"
    then issues_event s decoded.issues
    else if event == "issue_comment"
    then issue_comment_event_handler s (issue_comment_event_from_json decoded.issue_comment)
    else if event == "pull_request"
    then pull_request_event_handler s decoded.pull_request
    else http_error "unhandled event type" 501

-- validateSignature, with the hex-encoded HMAC-SHA1 of a body under a key as the argument `hmac`:
-- `receivedHash[1]` panics where the header has no separator.
unfoldable pub validate_signature :
    (String → String → String) → Option String → String → String → M (Option Error)
unfolding ◌>>=◌
validate_signature hmac received body_buffer secret_key = do
  hash ← deref received
  pure (
      if not (hash == hmac secret_key body_buffer)
      then some (
          error (
            "Expected Hash does not match the received hash: "
            +++ hmac secret_key body_buffer
            +++ "\n"))
      else none)

-- w.WriteHeader
abbrev pub write_header : ℕ → M (Unit {0})
write_header code = modify (λ w. record w {
  trace = responded code "" ∷ w.trace;
  writer = Response.write_header code w.writer;
})

-- The part of withValidation for a header that names sha1.
check_body :
    Server
    → (String → String → String)
    → (String → M (Unit {0}))
    → Option String
    → Result String
    → M (Unit {0})
unfolding ◌>>=◌ validate_signature
check_body s hmac next hash (err e) = write_header 400
check_body s hmac next hash (ok body_buffer) = do
  e ← validate_signature hmac hash body_buffer s.config.github_webhook_secret
  elim e [ some _ ↦ write_header 401 | none ↦ next body_buffer ]

-- withValidation. The handler of the health check reads no body, so it is given an empty one.
unfoldable pub with_validation :
    Server → (String → String → String) → (String → M (Unit {0})) → Request → M (Unit {0})
unfolding ◌>>=◌ check_body split2
with_validation s hmac next r =
    let received = split2 r.signature b'=' in
    if r.uri == "/healthz"
    then next ""
    else if not (received.0 == "sha1")
    then write_header 400
    else check_body s hmac next received.1 r.body

-- withRecovery: a panic of the handler ends there.
unfoldable pub with_recovery : M (Unit {0}) → M (Unit {0})
with_recovery next w = recovered (next w)
  where
    recovered : Outcome (Unit {0}) × World → Outcome (Unit {0}) × World
    recovered (returned a, w') = (returned a, w')
    recovered (panicked, w') = (returned tt, w')
    recovered (unfinished, w') = (unfinished, w')

-- withRequestDuration: nothing is observed after a panic.
unfoldable pub with_request_duration : Request → M (Unit {0}) → M (Unit {0})
unfolding ◌>>=◌
with_request_duration r next = do
  modify (λ w. record w { writer = new_wrapped_writer })
  next
  status_code ← gets (λ w. itoa w.writer.status_code)
  emit (observed (provider (observe_http_request_duration r.method r.path status_code)))

-- ping, on what the JSON encoder gives.
ping : Result String → M (Unit {0})
unfolding ◌>>=◌
ping (ok body) =
    modify (λ w. record w { trace = wrote body ∷ w.trace; writer = Response.write w.writer })
ping (err e) = write_header 500

-- A GET of / or /healthz, through the middleware.
unfoldable pub get_ping :
    Server → (String → String → String) → Result String → Request → M (Unit {0})
unfolding ◌>>=◌ with_recovery with_request_duration with_validation ping
get_ping s hmac info r =
    with_recovery (with_request_duration r (with_validation s hmac (λ body. ping info) r))

-- A POST to /pr_event, through the middleware, to the handler; `decode` is the JSON decoder.
unfoldable pub pr_event :
    Server → (String → String → String) → (String → Decoded) → Request → M (Unit {0})
unfolding ◌>>=◌ with_recovery with_request_duration with_validation github_event
pr_event s hmac decode r = with_recovery (
    with_request_duration r
      (with_validation s hmac (λ body. github_event s r.event (decode body)) r))
