-- ===== src/World/Config.antt =====
-- server/config.go: the settings that the modelled parts read, and the lookup of a repository.
use mattermost_mattermod.Base.{
  ℕ, String, Option, none, some, List, [], ◌∷◌, ◌==◌, ◌&&◌, if◌then◌else◌,
}

pub record LabelResponse : Type 0 where
  pub label : String
  pub message : String

pub record Repository : Type 0 where
  pub owner : String
  pub name : String
  pub build_status_context : String
  pub greeting_team : String
  pub greeting_labels : List String

pub record Config : Type 0 where
  pub github_username : String
  pub github_email : String
  pub git_config_merge_rename_limit : String
  pub github_webhook_secret : String
  pub org : String
  pub username : String
  pub auto_assigner_team : String
  pub auto_assigner_team_id : ℕ
  pub repositories : List Repository
  pub block_pr_merge_labels : List String
  pub auto_pr_merge_label : String
  pub translations_mattermost_webhook_url : String
  pub translations_mattermost_message : String
  pub translations_bot : String
  pub cla_exclusions_list : List String
  pub cla_github_status_context : String
  pub signed_cla_url : String
  pub pr_welcome_message : String
  pub pr_labels : List LabelResponse
  pub issue_labels : List LabelResponse
  pub issue_labels_to_clean_up : List String
  pub block_list_bots : List String
  pub mattermost_webhook_url : String
  pub mattermost_webhook_footer : String
  pub days_until_stale : ℕ
  pub exempt_stale_labels : List String
  pub stale_label : String
  pub stale_comment : String
  pub repo_folder : String
  pub scripts_folder : String

unfoldable pub get_repository : List Repository → String → String → Option Repository
get_repository [] owner name = none
get_repository (repo ∷ repositories) owner name =
    if (repo.owner == owner) && (repo.name == name)
    then some repo
    else get_repository repositories owner name
