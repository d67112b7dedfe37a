-- ===== src/Server/Transport.antt =====
-- server/metrics.go, server/rate_limit.go and server/github_client.go: the layers between the GitHub
-- client and the network. The network, the cache, the limiter and the JSON decoder are parameters.
pub mod Path
pub mod Transparency
use mattermost_mattermod.Base.{
  ℕ, zero, suc, ◌/◌, String, Bool, true, false, ◌&&◌, ◌||◌, Option, none, some, List, [], ◌∷◌, ◌++◌,
  ◌==◌, if◌then◌else◌, ltb, length, is_some,
}
use mattermost_mattermod.Base.Text.{contains, split, join, itoa}
use mattermost_mattermod.World.Github.{Error, Result, ok, err}
use mattermost_mattermod.World.Monad.{Outcome, returned, panicked, unfinished, error}
use mattermost_mattermod.Metrics.{
  Call, observe_github_request_duration, increase_github_cache_hits, increase_github_cache_misses,
  increase_rate_limiter_errors,
}

pub record HttpRequest : Type 0 where
  pub method : String
  pub host : String
  pub path : String

-- A body that is nil, one that can be read, one whose reading fails, and one that was read.
pub data Body : Type 0 where
  no_body : Body
  readable : String → Body
  unreadable : Error → Body
  spent : Body

-- A response, with its header X-From-Cache.
pub record HttpResponse : Type 0 where
  pub status_code : ℕ
  pub from_cache : String
  pub body : Body

-- http.RoundTripper: the response and the error, each nil or not, and what it counts.
abbrev pub RoundTripper : Type 0
RoundTripper = HttpRequest → Outcome (Option HttpResponse × Option Error) × List Call

-- io.ReadAll, and the body after it.
unfoldable pub read_all : Body → Result String × Body
read_all no_body = (ok "", no_body)
read_all (readable bytes) = (ok bytes, spent)
read_all (unreadable e) = (err e, spent)
read_all spent = (ok "", spent)

unfoldable pub has_body : Body → Bool
has_body no_body = false
has_body (readable bytes) = true
has_body (unreadable e) = true
has_body spent = true

unfoldable pub take : {A : Type 0} → List A → ℕ → List A
take [] n = []
take (x ∷ xs) zero = []
take (x ∷ xs) (suc n) = x ∷ take xs n

-- getGithubRequestPath
unfoldable pub get_github_request_path : String → String
unfolding take
get_github_request_path path =
    let splitted_path = split path 47 in
    if ltb 5 (length splitted_path) then join (take splitted_path 5) "/" else path

-- hasExceedRateLimit
unfoldable pub has_exceed_rate_limit : String → Bool
has_exceed_rate_limit msg = contains msg "temporarily blocked" || contains msg "rate limit exceeded"

-- What processGithubMetrics does with the bytes of a body that it has read: they become the body again.
count_message :
    (String → Result String) → HttpResponse → String → (Option Error × HttpResponse) × List Call
unfolding has_exceed_rate_limit
count_message unmarshal resp bytes =
    let read = record resp { body = readable bytes } in
    elim (unmarshal bytes) [
      | ok msg ↦ (
        (none, read),
        if has_exceed_rate_limit msg then increase_rate_limiter_errors ∷ [] else [],
      )
      | err e ↦ ((some e, read), [])
    ]

-- The part of processGithubMetrics for a status 403.
read_message : (String → Result String) → HttpResponse → (Option Error × HttpResponse) × List Call
unfolding read_all count_message
read_message unmarshal resp = elim (read_all resp.body).0 [
  | err e ↦ ((some e, record resp { body = (read_all resp.body).1 }), [])
  | ok bytes ↦ count_message unmarshal resp bytes
]

-- processGithubMetrics
unfoldable pub process_github_metrics :
    (String → Result String)
    → HttpRequest
    → HttpResponse
    → String
    → String
    → (Option Error × HttpResponse) × List Call
unfolding read_message has_body
process_github_metrics unmarshal req resp path status_code =
    let cached =
      if resp.from_cache == "1"
      then increase_github_cache_hits req.method path
      else increase_github_cache_misses req.method path in
    let read = read_message unmarshal resp in
    if has_body resp.body && (status_code == "403")
    then (read.0, cached ∷ read.1)
    else ((none, resp), cached ∷ [])

-- What MetricsTransport.RoundTrip does with a response.
observe_response :
    (String → Result String)
    → HttpRequest
    → HttpResponse
    → Option Error
    → Outcome (Option HttpResponse × Option Error) × List Call
unfolding process_github_metrics get_github_request_path
observe_response unmarshal req resp e =
    let status_code = itoa resp.status_code in
    let path = get_github_request_path req.path in
    let processed = process_github_metrics unmarshal req resp path status_code in
    if contains req.host "github"
    then (
      returned (some processed.0.1, e),
      processed.1 ++ observe_github_request_duration path req.method status_code ∷ [],
    )
    else (
      returned (some resp, e),
      observe_github_request_duration req.path req.method status_code ∷ [],
    )

-- MetricsTransport.RoundTrip after the base: a response and an error that are both nil make it panic.
after_base :
    (String → Result String)
    → HttpRequest
    → Outcome (Option HttpResponse × Option Error)
    → Outcome (Option HttpResponse × Option Error) × List Call
unfolding observe_response
after_base unmarshal req panicked = (panicked, [])
after_base unmarshal req unfinished = (unfinished, [])
after_base unmarshal req (returned (none, none)) = (panicked, [])
after_base unmarshal req (returned (none, some e)) = (returned (none, some e), [])
after_base unmarshal req (returned (some resp, e)) = observe_response unmarshal req resp e

-- MetricsTransport.RoundTrip
unfoldable pub metrics_round_trip : (String → Result String) → RoundTripper → RoundTripper
unfolding after_base
metrics_round_trip unmarshal base req =
    let r = base req in let after = after_base unmarshal req r.0 in (after.0, r.1 ++ after.1)

-- RateLimitTransport.RoundTrip; `wait` is the error of limiter.Wait.
unfoldable pub rate_limit_round_trip : (HttpRequest → Option Error) → RoundTripper → RoundTripper
rate_limit_round_trip wait base req = elim (wait req) [
  | some e ↦ (returned (none, some e), increase_rate_limiter_errors ∷ [])
  | none ↦ base req
]

-- The transport that NewGithubClientWithLimiter sets up.
unfoldable pub github_transport :
    (String → Result String)
    → (RoundTripper → RoundTripper)
    → (HttpRequest → Option Error)
    → RoundTripper
    → RoundTripper
unfolding metrics_round_trip rate_limit_round_trip
github_transport unmarshal cache wait base =
    metrics_round_trip unmarshal (cache (rate_limit_round_trip wait base))

-- The limiter of NewGithubClient: the nanoseconds between two tokens, and the tokens of a burst; a
-- negative number of tokens is refused as 0 is.
unfoldable pub new_github_client : ℕ → Result (ℕ × ℕ)
new_github_client zero = err (error "rate limit tokens for github client must be greater than 0")
new_github_client (suc n) = ok (1000000000 / suc n, suc n)
