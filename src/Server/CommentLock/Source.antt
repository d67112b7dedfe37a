-- ===== src/Server/CommentLock/Source.antt =====
-- What a goroutine does in the steps of this model is what handleIssueLabeled does behind its lock.
use mattermost_mattermod.Base.{
  String, Bool, true, false, ◌||◌, ◌&&◌, not, some, List, [], ◌∷◌, ◌==◌, ◌≡◌, refl, map,
  if◌then◌else◌, Bool-cases, inl, inr, ap, ◌∙◌,
}
use mattermost_mattermod.Base.Text.{contains, replace_all}
use mattermost_mattermod.Model.{Issue}
use mattermost_mattermod.World.Github.{Comment}
use mattermost_mattermod.World.Config.{LabelResponse}
use mattermost_mattermod.World.Monad.{Server, M, ◌>>=◌, ◌>>◌, pure, done, when, for_each, deref}
use mattermost_mattermod.Server.Github.{send_github_comment, message_by_user_contains}
use mattermost_mattermod.Server.IssueEvent.{answer_issue_label}
use mattermost_mattermod.Server.CommentLock.{Post, said, answers}

-- A comment as GitHub gives it.
abbrev pub as_comment : Post → Comment
as_comment post = record { login = some post.user; body = some post.body }

match_post :
    (author body : Bool) (rest : M Bool) (r : Bool)
    → rest ≡ pure r
    → (if author then (if body then pure true else rest) else rest) ≡ pure ((author && body) || r)
match_post true true rest r h = refl
match_post true false rest r h = h
match_post false body rest r h = h

message_by_user_contains_lem :
    (posts : List Post) (username text : String)
    → message_by_user_contains (map as_comment posts) username text
      ≡ pure (said posts username text)
unfolding message_by_user_contains said ◌>>=◌ deref
message_by_user_contains_lem [] username text = refl
message_by_user_contains_lem (post ∷ posts) username text =
    match_post (post.user == username) (contains post.body text) _ (said posts username text)
      (message_by_user_contains_lem posts username text)

-- The answers that no comment has.
unfoldable pub unsaid : List Post → String → List String → List String
unfolding said
unsaid posts username [] = []
unsaid posts username (x ∷ xs) =
    let rest = unsaid posts username xs in if said posts username x then rest else x ∷ rest

-- One round of the loop, by its two tests.
answer_round :
    (label : Bool) (found : Bool) (send rest : M (Unit {0}))
    → (when label (pure found >>= λ said. when (not said) send) >> rest)
      ≡ (if label then (if found then rest else (send >> rest)) else rest)
unfolding when ◌>>=◌
answer_round true true send rest = refl
answer_round true false send rest = refl
answer_round false found send rest = refl

module _ (s : Server) (issue : Issue) (added_label : String) (posts : List Post) where
  -- The comment is posted, and an error only logged.
  unfoldable pub send : String → M (Unit {0})
  unfolding ◌>>=◌ send_github_comment
  send x = send_github_comment s issue.repo_owner issue.repo_name issue.number x >>= λ e. done

  -- The loop over the texts that are not yet said, by the tests of the first.
  for_each-unsaid :
      (label : Bool) (x : String) (xs : List String)
      → (if label
          then (if said posts s.config.username x
              then for_each (unsaid posts s.config.username xs) send
              else (send x >> for_each (unsaid posts s.config.username xs) send))
          else for_each (unsaid posts s.config.username xs) send)
        ≡ for_each (unsaid posts s.config.username (if label then x ∷ xs else xs)) send
  unfolding unsaid for_each
  for_each-unsaid true x xs = elim (Bool-cases (said posts s.config.username x)) [
    | inl found ↦ rw found refl
    | inr missing ↦ rw missing refl
  ]
  for_each-unsaid false x xs = refl

  -- The loop of handleIssueLabeled over comments that have an author and a text posts, one after the
  -- other, the configured answers to the label that none of the bot's comments contains.
  pub for_each-answer_issue_label :
      (labels : List LabelResponse)
      → for_each labels (answer_issue_label s issue added_label (map as_comment posts))
        ≡ for_each (unsaid posts s.config.username (answers labels issue.username added_label)) send
  unfolding for_each answer_issue_label answers ◌>>=◌ unsaid send
  for_each-answer_issue_label [] = refl
  for_each-answer_issue_label (label ∷ labels) =
      let text = replace_all label.message "USERNAME" issue.username in
      let here = label.label == added_label in
      ap
        (λ m.
          when here (m >>= λ said. when (not said) (send text))
          >> for_each labels (answer_issue_label s issue added_label (map as_comment posts)))
        (message_by_user_contains_lem posts s.config.username text)
      ∙ ap
          (λ rest.
            when here
              (pure (said posts s.config.username text) >>= λ said. when (not said) (send text))
            >> rest)
          (for_each-answer_issue_label labels)
      ∙ answer_round here (said posts s.config.username text) (send text) _
      ∙ for_each-unsaid here text (answers labels issue.username added_label)
