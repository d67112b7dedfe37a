-- ===== src/Server/Http/Sound.antt =====
-- server/server.go: a request, on its way through the middleware, keeps the program sound.
use mattermost_mattermod.Base.{inl, inr, arith, ◌≡◌, refl, ◌==◌, ℕ, String, Option, not}
use mattermost_mattermod.Base.Text.{split2, itoa}
use mattermost_mattermod.World.{World, observed}
use mattermost_mattermod.World.Response.{new_wrapped_writer}
use mattermost_mattermod.Metrics.{provider, observe_http_request_duration}
use mattermost_mattermod.World.Github.{Result, ok, err}
use mattermost_mattermod.World.Monad.{Server, M, Outcome-cases, ◌>>=◌, emit, modify}
use mattermost_mattermod.World.Monad.Keeps.{
  Keeps, Keeps-bind, Keeps-pure, Keeps-if, Keeps-deref, Keeps-gets, Keeps-Result, Keeps-Option,
}
use mattermost_mattermod.Server.IssueEvent.{IssuePayload, issue_event_from_json}
use mattermost_mattermod.Server.IssueCommentEvent.{issue_comment_event_from_json}
use mattermost_mattermod.Server.IssueEvent.Sound.{
  issue_event_handler-Sound, pr_from_issue_handler-Sound,
}
use mattermost_mattermod.Server.IssueCommentEvent.Sound.{issue_comment_event_handler-Sound}
use mattermost_mattermod.Server.PullRequestEvent.Sound.{pull_request_event_handler-Sound}
use mattermost_mattermod.Server.Soundness.{Sound, Keeps-Same, http_error-Sound}
use mattermost_mattermod.Server.Http.{
  Decoded, Request, issues_event, github_event, validate_signature, write_header, check_body,
  with_validation, with_recovery, with_request_duration, ping, get_ping, pr_event,
}

module _ (s : Server) where
  issues_event-Sound : (payload : Result IssuePayload) → Keeps (Sound s) (issues_event s payload)
  unfolding issues_event
  issues_event-Sound payload =
      Keeps-Result (issue_event_from_json payload) _ _ (λ e. http_error-Sound s e.text 400)
        (λ event.
          Keeps-if event.issue.is_pull_request _ _ (pr_from_issue_handler-Sound s event)
            (issue_event_handler-Sound s (ok event)))

  github_event-Sound :
      (event : String) (decoded : Decoded) → Keeps (Sound s) (github_event s event decoded)
  unfolding github_event
  github_event-Sound event decoded =
      Keeps-if (event == "ping") _ _
        (Keeps-if (not decoded.ping_event) _ _ (http_error-Sound s "could not parse ping event" 400)
          (Keeps-pure tt))
        (Keeps-if (event == "issues") _ _ (issues_event-Sound decoded.issues) (
          Keeps-if (event == "issue_comment") _ _
            (issue_comment_event_handler-Sound s
              (issue_comment_event_from_json decoded.issue_comment))
            (Keeps-if (event == "pull_request") _ _
              (pull_request_event_handler-Sound s decoded.pull_request)
              (http_error-Sound s "unhandled event type" 501))))

  write_header-Sound : (code : ℕ) → Keeps (Sound s) (write_header code)
  unfolding ◌>>=◌
  write_header-Sound code = Keeps-Same s (write_header code) (λ w. (refl, refl, refl, refl))

  validate_signature-Sound :
      (hmac : String → String → String) (received : Option String) (body key : String)
      → Keeps (Sound s) (validate_signature hmac received body key)
  unfolding validate_signature
  validate_signature-Sound hmac received body key =
      Keeps-bind _ _ (Keeps-deref received) (λ hash. Keeps-pure _)

  module _ (hmac : String → String → String) (next : String → M (Unit {0}))
      (k : (body : String) → Keeps (Sound s) (next body)) where
    check_body-Sound :
        (hash : Option String) (body : Result String)
        → Keeps (Sound s) (check_body s hmac next hash body)
    unfolding check_body
    check_body-Sound hash (err e) = write_header-Sound 400
    check_body-Sound hash (ok body) =
        Keeps-bind _ _ (validate_signature-Sound hmac hash body s.config.github_webhook_secret)
          (λ e. Keeps-Option e _ _ (k body) (λ e. write_header-Sound 401))

    with_validation-Sound : (r : Request) → Keeps (Sound s) (with_validation s hmac next r)
    unfolding with_validation
    with_validation-Sound r =
        let received = split2 r.signature b'=' in
        Keeps-if (r.uri == "/healthz") _ _ (k "") (
          Keeps-if (not (received.0 == "sha1")) _ _ (write_header-Sound 400)
            (check_body-Sound received.1 r.body))

  observed-Sound :
      (r : Request) (status_code : String)
      → Keeps
          (Sound s)
          (emit (observed (provider (observe_http_request_duration r.method r.path status_code))))
  unfolding ◌>>=◌
  observed-Sound r status_code =
      Keeps-Same s
        (emit (observed (provider (observe_http_request_duration r.method r.path status_code))))
        (λ w. (refl, refl, refl, refl))

  with_recovery-world : (next : M (Unit {0})) (w : World) → (with_recovery next w).1 ≡ (next w).1
  unfolding with_recovery
  with_recovery-world next w = elim (Outcome-cases (next w).0) [
    | inl (a, e) ↦ ground (arith, e)
    | inr (inl e) ↦ ground (arith, e)
    | inr (inr e) ↦ ground (arith, e)
  ]

  with_recovery-Sound :
      (next : M (Unit {0})) → Keeps (Sound s) next → Keeps (Sound s) (with_recovery next)
  with_recovery-Sound next k = record { at = go }
    where
      go : (w : World) → Sound s w → Sound s (with_recovery next w).1
      go w h = rw (with_recovery-world next w) (k.at w h)

  with_request_duration-Sound :
      (r : Request) (next : M (Unit {0}))
      → Keeps (Sound s) next
      → Keeps (Sound s) (with_request_duration r next)
  unfolding with_request_duration
  with_request_duration-Sound r next k =
      Keeps-bind _ _
        (Keeps-Same s (modify (λ w. record w { writer = new_wrapped_writer }))
          (λ w. (refl, refl, refl, refl)))
        (λ _. Keeps-bind _ _ k (λ _.
          Keeps-bind _ _ (Keeps-gets (λ w. itoa w.writer.status_code))
            (λ status_code. observed-Sound r status_code)))

  pub pr_event-Sound :
      (hmac : String → String → String) (decode : String → Decoded) (r : Request)
      → Keeps (Sound s) (pr_event s hmac decode r)
  unfolding pr_event
  pr_event-Sound hmac decode r = with_recovery-Sound _ (
      with_request_duration-Sound r _
        (with_validation-Sound hmac _ (λ body. github_event-Sound r.event (decode body)) r))

  ping-Sound : (info : Result String) → Keeps (Sound s) (ping info)
  unfolding ping
  ping-Sound (ok body) = record {
    at = λ w h. record {
      pull_requests = h.pull_requests;
      issues = h.issues;
      queue = h.queue;
      merges = h.merges;
    };
  }
  ping-Sound (err e) = write_header-Sound 500

  pub get_ping-Sound :
      (hmac : String → String → String) (info : Result String) (r : Request)
      → Keeps (Sound s) (get_ping s hmac info r)
  unfolding get_ping
  get_ping-Sound hmac info r =
      with_recovery-Sound _
        (with_request_duration-Sound r _ (with_validation-Sound hmac _ (λ body. ping-Sound info) r))
