-- ===== src/Server/Http/Authentication.antt =====
-- server/validate_signature.go: no request gets through with a signature that is not the body's.
use mattermost_mattermod.Base.{
  ap, ◌∙◌, List, [], ◌∷◌, true, ℕ, eq_iff, String, Bool, false, ◌≡◌, Option, none, some, ◌==◌,
  arith, if◌then◌else◌, Option-cases, inl, inr,
}
use mattermost_mattermod.Base.Text.{split2, itoa}
use mattermost_mattermod.World.{World, responded, observed}
use mattermost_mattermod.World.Response.{new_wrapped_writer}
use mattermost_mattermod.Metrics.{
  provider, observe_http_request_duration, http_requests_duration, labelled,
}
use mattermost_mattermod.World.Github.{Result, ok, err, Result-cases}
use mattermost_mattermod.World.Monad.{
  Server, M, Outcome, Outcome-cases, returned, panicked, unfinished, log,
}
use mattermost_mattermod.Server.Http.{
  github_event, Request, Decoded, check_body, validate_signature, with_validation, with_recovery,
  with_request_duration, pr_event,
}

-- The request has a body and a signature that names sha1 and is the body's under the secret.
abbrev pub authentic : Server → (String → String → String) → Request → Bool
authentic s hmac r = signed (split2 r.signature b'=') r.body
  where
    signed : String × Option String → Result String → Bool
    signed (name, none) body = false
    signed (name, some hash) (err e) = false
    signed (name, some hash) (ok body) =
        if name == "sha1" then hash == hmac s.config.github_webhook_secret body else false

-- The world with the writer of a new request, and after the answer to one that is refused.
abbrev pub wrapped : World → World
wrapped w = record w { writer = new_wrapped_writer }

abbrev pub refused : Request → ℕ → World → World
refused r code w =
    log (observed (provider (observe_http_request_duration r.method r.path (itoa code))))
      (record w {
        trace = responded code "" ∷ w.trace;
        writer = record { status_code = code; status_code_written = true };
      })

-- A request for another address than the health check, whose signature is not the body's under the
-- secret, reaches no handler: it is answered by the status 400 or 401, which is observed, or, where the
-- panic on a header without a separator is recovered, not at all, and nothing else is done.
pub pr_event-authentic :
    (s : Server) (hmac : String → String → String) (decode : String → Decoded) (r : Request)
    (w : World)
    → (r.uri == "/healthz") ≡ false
    → authentic s hmac r ≡ false
    → let name = (split2 r.signature b'=').0 in
      pr_event s hmac decode r w ≡ (
        returned tt,
        if name == "sha1"
            then elim r.body [
              | err e ↦ refused r 400 w
              | ok body ↦ elim (split2 r.signature b'=').1 [
                | none ↦ wrapped w
                | some hash ↦ refused r 401 w
              ]
            ]
            else refused r 400 w,
      )
unfolding pr_event with_recovery with_request_duration with_validation check_body validate_signature
pr_event-authentic s hmac decode r w uri bad = elim (Result-cases r.body) [
  | inl (body, e) ↦ elim (Option-cases (split2 r.signature b'=').1) [
    | inl q ↦ ground arith
    | inr (hash, q) ↦ ground arith
  ]
  | inr (x, e) ↦ elim (Option-cases (split2 r.signature b'=').1) [
    | inl q ↦ ground arith
    | inr (hash, q) ↦ ground arith
  ]
]

with_validation-next :
    (s : Server) (hmac : String → String → String) (next : String → M (Unit {0})) (r : Request)
    (body : String) (w : World)
    → r.body ≡ ok body
    → split2 r.signature b'=' ≡ ("sha1", some (hmac s.config.github_webhook_secret body))
    → (r.uri == "/healthz") ≡ false
    → with_validation s hmac next r w ≡ next body w
unfolding with_validation check_body validate_signature
with_validation-next s hmac next r body w has signed uri =
    let name : (split2 r.signature b'=').0 ≡ "sha1" = ap (λ x. x.0) signed in
    ground (
      arith,
      name,
      eq_iff (split2 r.signature b'=').0 "sha1",
      eq_iff (hmac s.config.github_webhook_secret body) (hmac s.config.github_webhook_secret body),
    )

-- What is left when the handler of an event has ended. One that returned has its duration observed,
-- with the status that it has written. One that panicked is at an end, and is not observed. Neither
-- goes further up.
abbrev pub settled : Request → Outcome (Unit {0}) × World → Outcome (Unit {0}) × World
settled r (returned x, w) =
    let labels : List (String × String) =
      ("method", r.path)
      ∷ ("handler", r.method)
      ∷ ("status_code", itoa w.writer.status_code)
      ∷ [] in
    (returned tt, log (observed (labelled http_requests_duration labels)) w)
settled r (panicked, w) = (returned tt, w)
settled r (unfinished, w) = (unfinished, w)

-- A request whose signature names sha1 and is that of its body goes to the handler of its event, over a
-- new writer. Where the handler returns, its duration is observed with the status that it has written;
-- where it panics, the panic is recovered, and nothing is observed.
pub pr_event-with_recovery :
    (s : Server) (hmac : String → String → String) (decode : String → Decoded) (r : Request)
    (body : String) (w : World)
    → r.body ≡ ok body
    → split2 r.signature b'=' ≡ ("sha1", some (hmac s.config.github_webhook_secret body))
    → (r.uri == "/healthz") ≡ false
    → pr_event s hmac decode r w ≡ settled r (github_event s r.event (decode body) (wrapped w))
unfolding pr_event with_recovery with_request_duration provider
pr_event-with_recovery s hmac decode r body w has signed uri =
    let next : String → M (Unit {0}) = λ body. github_event s r.event (decode body) in
    let q = Outcome-cases (github_event s r.event (decode body) (wrapped w)).0 in
    let valid = with_validation-next s hmac next r body (wrapped w) has signed uri in
    elim q [
      | inl (x, e) ↦ ground (arith, valid, e)
      | inr (inl e) ↦ ground (arith, valid, e)
      | inr (inr e) ↦ ground (arith, valid, e)
    ]

-- A ping with a valid signature, which net/http answers with the status 200 as its handler writes
-- nothing, is observed with the status 0, with its path as the label `method` and its method as the
-- label `handler`.
pub pr_event-observed :
    (s : Server) (hmac : String → String → String) (decode : String → Decoded) (r : Request)
    (body : String) (w : World)
    → r.body ≡ ok body
    → split2 r.signature b'=' ≡ ("sha1", some (hmac s.config.github_webhook_secret body))
    → (r.uri == "/healthz") ≡ false
    → r.event ≡ "ping"
    → (decode body).ping_event ≡ true
    → let labels : List (String × String) =
        ("method", r.path) ∷ ("handler", r.method) ∷ ("status_code", "0") ∷ [] in
      pr_event s hmac decode r w
      ≡ (returned tt, log (observed (labelled http_requests_duration labels)) (wrapped w))
unfolding github_event itoa
pr_event-observed s hmac decode r body w has signed uri event parsed =
    pr_event-with_recovery s hmac decode r body w has signed uri
    ∙ ground (arith, event, parsed, eq_iff r.event "ping")
