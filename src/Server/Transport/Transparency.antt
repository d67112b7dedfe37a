-- ===== src/Server/Transport/Transparency.antt =====
-- server/metrics.go: the layer that counts hands on what it gets.
use mattermost_mattermod.Base.{
  ◌≡◌, ℕ, String, Bool, true, false, Option, some, List, arith, inl, inr,
}
use mattermost_mattermod.Base.Text.{itoa}
use mattermost_mattermod.World.Github.{Error, Result, Result-cases}
use mattermost_mattermod.World.Monad.{returned}
use mattermost_mattermod.Metrics.{Call}
use mattermost_mattermod.Server.Transport.{
  HttpRequest, HttpResponse, Body, no_body, readable, unreadable, spent, RoundTripper, read_all,
  has_body, count_message, read_message, process_github_metrics, observe_response, after_base,
  metrics_round_trip, get_github_request_path,
}

-- A body that is nil, or that can be read.
abbrev pub intact : Body → Bool
intact no_body = true
intact (readable bytes) = true
intact (unreadable e) = false
intact spent = false

count_message-response :
    (unmarshal : String → Result String) (resp : HttpResponse) (bytes : String)
    → (count_message unmarshal resp bytes).0.1 ≡ record resp { body = readable bytes }
unfolding count_message
count_message-response unmarshal resp bytes = elim (Result-cases (unmarshal bytes)) [
  | inl (msg, e) ↦ ground arith
  | inr (x, e) ↦ ground arith
]

process_github_metrics-response :
    (unmarshal : String → Result String) (req : HttpRequest) (n : ℕ) (cache : String) (body : Body)
    (path status_code : String)
    → intact body ≡ true
    → let resp : HttpResponse = record { status_code = n; from_cache = cache; body = body } in
      (process_github_metrics unmarshal req resp path status_code).0.1 ≡ resp
unfolding process_github_metrics read_message read_all has_body
process_github_metrics-response unmarshal req n cache no_body path code h = ground arith
process_github_metrics-response unmarshal req n cache (readable bytes) path code h = ground (
  arith,
  count_message-response unmarshal
      (record { status_code = n; from_cache = cache; body = readable bytes }) bytes,
)
process_github_metrics-response unmarshal req n cache (unreadable e) path code h =
    absurd (ground arith)
process_github_metrics-response unmarshal req n cache spent path code h = absurd (ground arith)

-- The transport that counts changes neither the response, with its unread body, nor the error of its
-- base, where the body can be read or is nil.
pub metrics_round_trip-response :
    (unmarshal : String → Result String) (base : RoundTripper) (req : HttpRequest)
    (resp : HttpResponse) (e : Option Error) (calls : List Call)
    → base req ≡ (returned (some resp, e), calls)
    → intact resp.body ≡ true
    → (metrics_round_trip unmarshal base req).0 ≡ returned (some resp, e)
unfolding metrics_round_trip after_base observe_response
metrics_round_trip-response unmarshal base req resp e calls answers h = rw answers (
    ground (
      arith,
      process_github_metrics-response unmarshal req resp.status_code resp.from_cache resp.body
          (get_github_request_path req.path) (itoa resp.status_code) h,
    ))
