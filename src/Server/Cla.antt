-- ===== src/Server/Cla.antt =====
-- server/cla.go: the commit status that says whether the author has signed the CLA.
pub mod Verdict
use mattermost_mattermod.Base.{
  String, Bool, true, false, Option, none, some, List, [], ◌∷◌, ◌==◌, not, if◌then◌else◌,
}
use mattermost_mattermod.Base.Text.{◌+++◌, itoa, split, to_lower, trim_space}
use mattermost_mattermod.Model.{PullRequest, state_closed}
use mattermost_mattermod.World.{fetched}
use mattermost_mattermod.World.Github.{
  Error, Result, ok, err, RepoStatus, Fetched, bad_request, no_response, no_body, body,
}
use mattermost_mattermod.World.Monad.{Server, M, ◌>>=◌, ◌>>◌, pure, done, ask}
use mattermost_mattermod.Server.Github.{create_repo_status}
use mattermost_mattermod.Server.Members.{is_bot_user_from_cla_exclusions_list}
use mattermost_mattermod.Server.BlockMerge.{state_pending, state_success, state_error}
use mattermost_mattermod.Server.Webhook.{log_to_mattermost}

-- A status of the CLA check.
abbrev pub cla_status : Server → String → String → RepoStatus
cla_status s state description = record {
  state = state;
  description = description;
  target_url = s.config.signed_cla_url;
  context = s.config.cla_github_status_context;
}

-- getCSV
unfoldable pub get_csv : Server → M (Result String)
unfolding ◌>>=◌ log_to_mattermost
get_csv s = do
  r ← ask (λ t. s.outside.fetch t s.config.signed_cla_url) (fetched s.config.signed_cla_url)
  elim r [
    | bad_request e ↦ pure (err e)
    | no_response e ↦ do
      log_to_mattermost s ("unable to get CLA google csv file Error: ```" +++ e.text +++ "```")
      pure (err e)
    | no_body e ↦ do
      log_to_mattermost s ("unable to read CLA google csv file Error: ```" +++ e.text +++ "```")
      pure (err e)
    | body text ↦ pure (ok text)
  ]

-- isNameInCLAList
unfoldable pub is_name_in_cla_list : List String → String → Bool
is_name_in_cla_list [] author = false
is_name_in_cla_list (user ∷ users) author =
    if to_lower (trim_space user) == to_lower author then true else is_name_in_cla_list users author

-- createCLAPendingStatus
unfoldable pub create_cla_pending_status : Server → PullRequest → M (Unit {0})
unfolding ◌>>=◌ create_repo_status log_to_mattermost
create_cla_pending_status s pr = do
  e ←
      create_repo_status s pr
        (cla_status s state_pending ("Checking if " +++ pr.username +++ " signed CLA"))
  elim e [
    | none ↦ done
    | some e ↦ log_to_mattermost s (
        "failed to create status for PR: "
        +++ itoa pr.number
        +++ " Context: "
        +++ s.config.cla_github_status_context
        +++ " Error: ```"
        +++ e.text
        +++ "```")
  ]

-- The last step of handleCheckCLA on each way: set the status, and say whether the author must sign.
report_cla : Server → PullRequest → Bool → String → String → M (Bool × Option Error)
unfolding ◌>>=◌ create_repo_status
report_cla s pr needed state description = do
  e ← create_repo_status s pr (cla_status s state description)
  pure (needed, e)

-- The part of handleCheckCLA for an author who is not excluded.
look_up_cla : Server → PullRequest → M (Bool × Option Error)
unfolding ◌>>=◌ get_csv report_cla
look_up_cla s pr = do
  r ← get_csv s
  elim r [
    | err e ↦ pure (false, none)
    | ok text ↦
        if not (is_name_in_cla_list (split text 10) pr.username)
        then report_cla s pr true state_error (pr.username +++ " needs to sign the CLA")
        else report_cla s pr false state_success (pr.username +++ " authorized")
  ]

-- The part of handleCheckCLA for a pull request that is not closed.
check_cla : Server → PullRequest → M (Bool × Option Error)
unfolding ◌>>=◌ create_cla_pending_status look_up_cla report_cla
check_cla s pr = do
  create_cla_pending_status s pr
  if is_bot_user_from_cla_exclusions_list s pr.username
      then report_cla s pr false state_success (pr.username +++ " excluded")
      else look_up_cla s pr

-- handleCheckCLA: true if the author has not signed yet.
unfoldable pub handle_check_cla : Server → PullRequest → M (Bool × Option Error)
unfolding ◌>>=◌ check_cla
handle_check_cla s pr = if pr.state == state_closed then pure (false, none) else check_cla s pr
