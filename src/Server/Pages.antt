-- ===== src/Server/Pages.antt =====
-- server/github.go: the loops of getComments, getFiles and getMembers over the pages of a listing.
pub mod Complete
use mattermost_mattermod.Base.{
  ℕ, zero, suc, String, not, List, [], ◌++◌, map, if◌then◌else◌, nat_eq,
}
use mattermost_mattermod.Base.Text.{◌+++◌}
use mattermost_mattermod.World.{got_comments, got_members}
use mattermost_mattermod.World.Github.{Result, ok, err, Page, Comment}
use mattermost_mattermod.World.Monad.{Server, M, ◌>>=◌, pure, out_of_fuel, ask, error}

-- The loop of all three: the fuel is the number of requests, `failed` the message for a status that
-- is not 200.
unfoldable pub all_pages :
    {A : Type 0} → ℕ → (ℕ → M (Result (Page A))) → String → ℕ → List A → M (Result (List A))
unfolding ◌>>=◌
all_pages zero fetch failed page items = out_of_fuel
all_pages (suc f) fetch failed page items = do
  r ← fetch page
  elim r [
    | err e ↦ pure (err e)
    | ok p ↦
        let rest = all_pages f fetch failed p.next_page (items ++ p.items) in
        if not (nat_eq p.status 200)
        then pure (err (error (failed +++ p.status_text)))
        else if nat_eq p.next_page 0
        then pure (ok (items ++ p.items))
        else rest
  ]

-- getComments
unfoldable pub get_comments : Server → String → String → ℕ → M (Result (List Comment))
unfolding ◌>>=◌ all_pages
get_comments s owner name number =
    all_pages s.fuel
      (λ page.
        ask (λ t. s.outside.comments t owner name number page)
          (got_comments owner name number page))
      "failed fetching comments: got http status " 0 []

-- getMembers
unfoldable pub get_members : Server → M (Result (List String))
unfolding ◌>>=◌ all_pages
get_members s =
    all_pages s.fuel
      (λ page. ask (λ t. s.outside.members t s.config.org page) (got_members s.config.org page))
      "failed listing org members: got http status " 0 []
