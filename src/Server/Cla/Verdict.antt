-- ===== src/Server/Cla/Verdict.antt =====
-- server/cla.go: who has to sign the contributor licence agreement.
use mattermost_mattermod.Base.{
  String, Bool, true, false, ◌≡◌, refl, ◌&&◌, not, Option, List, [], ◌∷◌, ◌==◌, arith, mem,
  if◌then◌else◌, any, eq_iff, Bool-cases, inl, inr,
}
use mattermost_mattermod.Base.Text.{◌+++◌, split, to_lower, trim_space}
use mattermost_mattermod.Model.{PullRequest, state_closed}
use mattermost_mattermod.World.{World, Event, created_status, fetched}
use mattermost_mattermod.World.Github.{Error, body}
use mattermost_mattermod.World.Monad.{Server, returned, log}
use mattermost_mattermod.Server.Webhook.{log_to_mattermost}
use mattermost_mattermod.Server.BlockMerge.{state_success, state_error}
use mattermost_mattermod.Server.Github.{create_repo_status}
use mattermost_mattermod.Server.Members.{is_bot_user_from_cla_exclusions_list}
use mattermost_mattermod.Server.Cla.{
  handle_check_cla, check_cla, look_up_cla, report_cla, get_csv, create_cla_pending_status,
  is_name_in_cla_list, cla_status,
}

-- A line of the list names the author, but for the space around it and the case.
abbrev pub signed : List String → String → Bool
signed users author = any (λ user. to_lower (trim_space user) == to_lower author) users

is_name_in_cla_list-signed :
    (users : List String) (author : String) → is_name_in_cla_list users author ≡ signed users author
unfolding is_name_in_cla_list
is_name_in_cla_list-signed [] author = refl
is_name_in_cla_list-signed (user ∷ users) author =
    ground (arith, is_name_in_cla_list-signed users author)

create_cla_pending_status_returns :
    (s : Server) (pr : PullRequest) (w : World) → (create_cla_pending_status s pr w).0 ≡ returned tt
unfolding create_cla_pending_status log_to_mattermost create_repo_status
create_cla_pending_status_returns s pr w = ground arith

-- The history ends with a status for the head of the pull request.
abbrev pub ends_with : PullRequest → String → List Event → Bool
ends_with pr state (created_status owner name sha status e ∷ t) =
    (owner == pr.repo_owner) && (name == pr.repo_name) && (sha == pr.sha) && (status.state == state)
ends_with pr state t = false

report_cla_lem :
    (s : Server) (pr : PullRequest) (needed : Bool) (state description : String) (w : World)
    → (e : Option Error) × ((report_cla s pr needed state description w).0 ≡ returned (needed, e))
      × (ends_with pr state (report_cla s pr needed state description w).1.trace ≡ true)
unfolding report_cla create_repo_status
report_cla_lem s pr needed state description w =
    let status = cla_status s state description in
    let event = created_status pr.repo_owner pr.repo_name pr.sha status in
    (
      s.outside.write w.trace event,
      ground arith,
      ground (
        arith,
        eq_iff pr.repo_owner pr.repo_owner,
        eq_iff pr.repo_name pr.repo_name,
        eq_iff pr.sha pr.sha,
        eq_iff state state,
      ),
    )

-- For a pull request that is not closed, and a list that can be fetched, handleCheckCLA returns, asks
-- the author to sign exactly if the author is neither excluded nor on the list, and at its end has set
-- the status of the head to error in that case and to success in the other.
pub handle_check_cla_lem :
    (s : Server) (pr : PullRequest) (text : String) (w : World)
    → (pr.state == state_closed) ≡ false
    → ((t : List Event) → s.outside.fetch t s.config.signed_cla_url ≡ body text)
    → let needed =
        not (mem pr.username s.config.cla_exclusions_list)
        && not (signed (split text 10) pr.username) in
      (e : Option Error) × ((handle_check_cla s pr w).0 ≡ returned (needed, e))
      × (ends_with pr
            (if needed then state_error else state_success)
            (handle_check_cla s pr w).1.trace
          ≡ true)
unfolding handle_check_cla check_cla look_up_cla get_csv is_bot_user_from_cla_exclusions_list
handle_check_cla_lem s pr text w not_closed fetches =
    let w₁ = (create_cla_pending_status s pr w).1 in
    let w₂ = log (fetched s.config.signed_cla_url (body text)) w₁ in
    let p = create_cla_pending_status_returns s pr w in
    let n = is_name_in_cla_list-signed (split text 10) pr.username in
    let f = fetches w₁.trace in
    elim (Bool-cases (mem pr.username s.config.cla_exclusions_list)) [
      | inl out ↦
          let text' = pr.username +++ " excluded" in
          let (e, a, b) = report_cla_lem s pr false state_success text' w₁ in
          let m : handle_check_cla s pr w ≡ report_cla s pr false state_success text' w₁ =
            ground (arith, p) in
          (e, rw (m, out) a, rw (m, out) b)
      | inr on ↦ elim (Bool-cases (signed (split text 10) pr.username)) [
        | inl has ↦
            let text' = pr.username +++ " authorized" in
            let (e, a, b) = report_cla_lem s pr false state_success text' w₂ in
            let m : handle_check_cla s pr w ≡ report_cla s pr false state_success text' w₂ =
              ground (arith, p, n, f) in
            (e, rw (m, on, has) a, rw (m, on, has) b)
        | inr lacks ↦
            let text' = pr.username +++ " needs to sign the CLA" in
            let (e, a, b) = report_cla_lem s pr true state_error text' w₂ in
            let m : handle_check_cla s pr w ≡ report_cla s pr true state_error text' w₂ =
              ground (arith, p, n, f) in
            (e, rw (m, on, lacks) a, rw (m, on, lacks) b)
      ]
    ]
