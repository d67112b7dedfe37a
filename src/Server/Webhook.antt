-- ===== src/Server/Webhook.antt =====
-- server/webhook.go, server/utils.go and server/translations.go: messages to Mattermost.
use mattermost_mattermod.Base.{String, Bool, Option, none, some, ◌==◌, not, if◌then◌else◌}
use mattermost_mattermod.Base.Text.{◌+++◌, itoa}
use mattermost_mattermod.Model.{PullRequest}
use mattermost_mattermod.World.{posted}
use mattermost_mattermod.World.Github.{Error}
use mattermost_mattermod.World.Monad.{Server, M, ◌>>=◌, pure, gets, done, ask, when, error}

pub record Payload : Type 0 where
  pub username : String
  pub text : String

-- validateSendToWebhookRequest
unfoldable pub validate_send_to_webhook_request : String → Payload → Option Error
validate_send_to_webhook_request url payload =
    if url == ""
    then some (error "invalid webhook URL")
    else if payload.username == ""
    then some (error "invalid username")
    else if payload.text == ""
    then some (error "invalid text")
    else none

-- sendToWebhook
unfoldable pub send_to_webhook : Server → String → Payload → M (Option Error)
unfolding ◌>>=◌ validate_send_to_webhook_request
send_to_webhook s url payload = elim (validate_send_to_webhook_request url payload) [
  | some e ↦ pure (some e)
  | none ↦
      ask (λ t. s.outside.webhook t url payload.username payload.text)
        (posted url payload.username payload.text)
]

-- logToMattermost
unfoldable pub log_to_mattermost : Server → String → M (Unit {0})
unfolding ◌>>=◌ send_to_webhook
log_to_mattermost s msg = do
  let text = s.outside.sprintf msg
  let footer = s.config.mattermost_webhook_footer
  _ ← send_to_webhook s s.config.mattermost_webhook_url (record {
    username = "Mattermod";
    text = if not (footer == "") then text +++ "\n---\n" +++ footer else text;
  })
  done

-- isTranslationPr
unfoldable pub is_translation_pr : Server → PullRequest → Bool
is_translation_pr s pr = pr.username == s.config.translations_bot

-- sendTranslationWebhookMessage
unfoldable pub send_translation_webhook_message : Server → PullRequest → String → M (Option Error)
unfolding ◌>>=◌ send_to_webhook
send_translation_webhook_message s pr msg = do
  date ← gets (λ w. s.outside.rfc3339 w.trace)
  let url =
      "https://github.com/"
      +++ s.config.org
      +++ "/"
      +++ pr.repo_name
      +++ "/pull/"
      +++ itoa pr.number
  send_to_webhook s s.config.translations_mattermost_webhook_url (record {
    username = "Weblate";
    text =
        "#### [" +++ pr.repo_name +++ " translations PR " +++ date +++ "](" +++ url +++ ")\n"
        +++ msg;
  })

-- handleTranslationPR
unfoldable pub handle_translation_pr : Server → PullRequest → M (Unit {0})
unfolding ◌>>=◌ is_translation_pr send_translation_webhook_message
handle_translation_pr s pr =
    when (is_translation_pr s pr)
      (send_translation_webhook_message s pr s.config.translations_mattermost_message >>= λ _. done)
