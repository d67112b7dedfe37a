-- ===== src/Server/Pages/Complete.antt =====
-- server/github.go: the loops over pages get all entries.
use mattermost_mattermod.Base.{
  ℕ, zero, suc, ◌≤◌, String, ◌≡◌, refl, List, [], ◌∷◌, ◌++◌, arith, nat_eq, false, ap,
}
use mattermost_mattermod.World.{World, Event, got_comments}
use mattermost_mattermod.World.Github.{Result, ok, Page, Comment}
use mattermost_mattermod.World.Monad.{Server, M, returned, ask}
use mattermost_mattermod.Server.Pages.{all_pages, get_comments}

-- A listing of a number of pages, each with the status 200, from a page to the last one, with all
-- their entries.
pub data Listing {A : Type 0} (pages : ℕ → Page A) : ℕ → ℕ → List A → Type 0 where
  last_page :
      {page : ℕ}
      → (pages page).status ≡ 200
      → (pages page).next_page ≡ 0
      → Listing pages page 1 (pages page).items
  page_before :
      {page k : ℕ} {items : List A}
      → (pages page).status ≡ 200
      → nat_eq (pages page).next_page 0 ≡ false
      → Listing pages (pages page).next_page k items
      → Listing pages page (suc k) ((pages page).items ++ items)

append_assoc : {A : Type 0} (xs ys zs : List A) → (xs ++ ys) ++ zs ≡ xs ++ (ys ++ zs)
append_assoc [] ys zs = refl
append_assoc (x ∷ xs) ys zs = ap (λ t. x ∷ t) (append_assoc xs ys zs)

all_pages-Listing :
    {A : Type 0} (pages : ℕ → Page A) (fetch : ℕ → M (Result (Page A))) (failed : String)
    → ((page : ℕ) (w : World) → (fetch page w).0 ≡ returned (ok (pages page)))
    → (fuel page k : ℕ) (before items : List A) (w : World) → Listing pages page k items
    → k ≤ fuel
    → (all_pages fuel fetch failed page before w).0 ≡ returned (ok (before ++ items))
unfolding all_pages
all_pages-Listing pages fetch failed h zero page k before items w (last_page a b) enough =
    absurd (omega (arith, enough))
all_pages-Listing pages fetch failed h zero page k before items w (page_before a b l) enough =
    absurd (omega (arith, enough))
all_pages-Listing pages fetch failed h (suc fuel) page k before items w (last_page a b) enough =
    ground (arith, h page w)
all_pages-Listing pages fetch failed h (suc fuel) page k before items w
      (page_before {k = k'} {items = items'} a b l) enough =
    let more : k' ≤ fuel = omega (arith, enough) in
    ground (
      arith,
      h page w,
      all_pages-Listing pages fetch failed h fuel (pages page).next_page k'
          (before ++ (pages page).items) items' (fetch page w).1 l more,
      append_assoc before (pages page).items items',
    )

-- If GitHub's answers do not change on the way, and the server follows a loop for as many rounds as
-- there are pages, getComments returns the comments of all pages, in their order.
pub get_comments_complete :
    (s : Server) (owner name : String) (number : ℕ) (pages : ℕ → Page Comment) (k : ℕ)
    (items : List Comment) (w : World)
    → ((t : List Event) (page : ℕ) → s.outside.comments t owner name number page ≡ ok (pages page))
    → Listing pages 0 k items
    → k ≤ s.fuel
    → (get_comments s owner name number w).0 ≡ returned (ok items)
unfolding get_comments
get_comments_complete s owner name number pages k items w h l enough =
    all_pages-Listing pages
      (λ page.
        ask (λ t. s.outside.comments t owner name number page)
          (got_comments owner name number page))
      "failed fetching comments: got http status " (λ page w. ap (λ r. returned r) (h w.trace page))
      s.fuel 0 k [] items w l enough
