-- ===== src/Metrics/Labels.antt =====
-- metrics/provider.go: the names and the labels of what the provider registers and observes.
use mattermost_mattermod.Base.{
  ◌≡◌, refl, Bool, true, false, not, ◌&&◌, ◌==◌, String, List, [], ◌∷◌, any, nat_eq, length,
}
use mattermost_mattermod.Metrics.{
  Desc, registered, Call, observe_http_request_duration, increase_webhook_request,
  increase_webhook_errors, observe_github_request_duration, increase_github_cache_hits,
  increase_github_cache_misses, increase_rate_limiter_errors, observe_cron_task_duration,
  increase_cron_task_errors, Sample, labelled, valued, unlabelled, provider,
}

-- Two metrics have one name.
abbrev same_name : Desc → Desc → Bool
same_name a b = (a.namespace == b.namespace) && (a.subsystem == b.subsystem) && (a.name == b.name)

-- MustRegister panics on a name that is there.
abbrev no_clash : List Desc → Bool
no_clash [] = true
no_clash (d ∷ ds) = not (any (same_name d) ds) && no_clash ds

-- The labels have the names in their order, so they are those that With asks for.
abbrev names_match : List (String × String) → List String → Bool
names_match [] [] = true
names_match [] (n ∷ ns) = false
names_match (l ∷ ls) [] = false
names_match (l ∷ ls) (n ∷ ns) = (l.0 == n) && names_match ls ns

-- With panics on labels of other names, WithLabelValues on another number of values.
abbrev accepted : Sample → Bool
accepted (labelled d labels) = any (same_name d) registered && names_match labels d.labels
accepted (valued d values) =
    any (same_name d) registered && nat_eq (length values) (length d.labels)
accepted (unlabelled d) = any (same_name d) registered && nat_eq 0 (length d.labels)

-- The names of the registered metrics differ, and each method of the provider observes a registered
-- metric with the labels that it has.
provider-accepted : (c : Call) → (no_clash registered ≡ true) × (accepted (provider c) ≡ true)
unfolding provider
provider-accepted (observe_http_request_duration handler method status_code) = (refl, refl)
provider-accepted (increase_webhook_request name) = (refl, refl)
provider-accepted (increase_webhook_errors name) = (refl, refl)
provider-accepted (observe_github_request_duration handler method status_code) = (refl, refl)
provider-accepted (increase_github_cache_hits method handler) = (refl, refl)
provider-accepted (increase_github_cache_misses method handler) = (refl, refl)
provider-accepted increase_rate_limiter_errors = (refl, refl)
provider-accepted (observe_cron_task_duration name) = (refl, refl)
provider-accepted (increase_cron_task_errors name) = (refl, refl)
