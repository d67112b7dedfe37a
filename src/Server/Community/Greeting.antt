-- ===== src/Server/Community/Greeting.antt =====
-- server/community.go: members of the organization are left alone, and what the others get.
use mattermost_mattermod.Base.{
  String, Bool, true, ◌≡◌, ◌||◌, none, List, [], ◌∷◌, ◌++◌, mem, arith, eq_iff, ◌==◌,
}
use mattermost_mattermod.Model.{PullRequest}
use mattermost_mattermod.World.{World}
use mattermost_mattermod.World.Config.{Repository}
use mattermost_mattermod.World.Monad.{Server, returned}
use mattermost_mattermod.Server.Community.{
  add_hacktoberfest_label, post_pr_welcome_message, assign_greeter, assign_greeting_labels,
  greeting_labels, contributor_label,
}

module _ (s : Server) (pr : PullRequest) (w : World)
    (member : mem pr.username w.org_members ≡ true) where
  pub add_hacktoberfest_label-member : add_hacktoberfest_label s pr w ≡ (returned tt, w)
  unfolding add_hacktoberfest_label
  add_hacktoberfest_label-member = ground arith

  pub post_pr_welcome_message-member :
      (needed : Bool) → post_pr_welcome_message s pr needed w ≡ (returned none, w)
  unfolding post_pr_welcome_message
  post_pr_welcome_message-member needed = ground arith

  pub assign_greeter-member : (repo : Repository) → assign_greeter s pr repo w ≡ (returned none, w)
  unfolding assign_greeter
  assign_greeter-member repo = ground arith

  pub assign_greeting_labels-member :
      (repo : Repository) → assign_greeting_labels s pr repo w ≡ (returned none, w)
  unfolding assign_greeting_labels
  assign_greeting_labels-member repo = ground arith

mem-append_left : (a : String) (xs ys : List String) → mem a xs ≡ true → mem a (xs ++ ys) ≡ true
mem-append_left a [] ys h = cc
mem-append_left a (x ∷ xs) ys h = ground (arith, mem-append_left a xs ys)

mem-append_right : (a : String) (xs ys : List String) → mem a ys ≡ true → mem a (xs ++ ys) ≡ true
mem-append_right a [] ys h = h
mem-append_right a (x ∷ xs) ys h = ground (arith, mem-append_right a xs ys)

mem-append_inv :
    (a : String) (xs ys : List String) → mem a (xs ++ ys) ≡ true → (mem a xs || mem a ys) ≡ true
mem-append_inv a [] ys h = h
mem-append_inv a (x ∷ xs) ys h = ground (arith, mem-append_inv a xs ys)

-- A greeted contribution gets the contributor label, every configured label, and nothing else.
greeting_labels_lem :
    (repo : Repository) (label : String)
    → (mem contributor_label (greeting_labels repo) ≡ true)
      × (mem label (greeting_labels repo)
          ≡ ((label == contributor_label) || mem label repo.greeting_labels))
unfolding greeting_labels
greeting_labels_lem repo label = (
  ground (
    arith,
    eq_iff contributor_label contributor_label,
    mem-append_right contributor_label repo.greeting_labels (contributor_label ∷ []),
  ),
  ground (
    arith,
    eq_iff label contributor_label,
    mem-append_left label repo.greeting_labels (contributor_label ∷ []),
    mem-append_right label repo.greeting_labels (contributor_label ∷ []),
    mem-append_inv label repo.greeting_labels (contributor_label ∷ []),
  ),
)
