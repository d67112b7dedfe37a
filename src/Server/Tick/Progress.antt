-- ===== src/Server/Tick/Progress.antt =====
-- server/server.go: what the loops of Tick reach.
use mattermost_mattermod.Base.{
  ℕ, zero, suc, ◌≤◌, ◌≡◌, refl, List, [], ◌∷◌, arith, nat_eq, false, length, inl, inr,
}
use mattermost_mattermod.World.{World, Event, listed_pulls, counted}
use mattermost_mattermod.World.Github.{Error, ok, err, GhPull, Page}
use mattermost_mattermod.World.Config.{Repository}
use mattermost_mattermod.World.Monad.{
  Server, M, ◌>>◌, emit, for_each, Outcome-cases, unfinished, log,
}
use mattermost_mattermod.Server.Tick.{tick_pages, list_pulls}

-- A listing from a page to the last one, which names no page after it, with the numbers of the pages
-- that are followed by another.
pub data Listing (pages : ℕ → Page GhPull) : ℕ → List ℕ → ℕ → Type 0 where
  last_page : {page : ℕ} → (pages page).next_page ≡ 0 → Listing pages page [] page
  page_before :
      {page : ℕ} {before : List ℕ} {last : ℕ}
      → nat_eq (pages page).next_page 0 ≡ false
      → Listing pages (pages page).next_page before last
      → Listing pages page (page ∷ before) last

-- A page is asked for, and each of its pull requests is looked at.
abbrev pub look_at :
    Server → Repository → (GhPull → M (Unit {0})) → (ℕ → Page GhPull) → ℕ → M (Unit {0})
look_at s r each pages page =
    emit (listed_pulls r.owner r.name page (ok (pages page))) >> for_each (pages page).items each

-- Where GitHub's pages do not change on the way, and the loop may make one more round than there are
-- pages before the last one, it comes to the last page: it asks for each page in its turn, looks at the
-- pull requests of each page but the last, and looks at none of the last page, whatever is done with one.
pub tick_pages-Listing :
    (s : Server) (r : Repository) (each : GhPull → M (Unit {0})) (pages : ℕ → Page GhPull)
    → ((t : List Event) (page : ℕ) → s.outside.pulls t r.owner r.name page ≡ ok (pages page))
    → (f page last : ℕ) (before : List ℕ) (w : World) → Listing pages page before last
    → suc (length before) ≤ f
    → tick_pages f (list_pulls s r) each page w
      ≡ (for_each before (look_at s r each pages)
            >> emit (listed_pulls r.owner r.name last (ok (pages last))))
          w
unfolding tick_pages list_pulls
tick_pages-Listing s r each pages h zero page last before w l enough =
    absurd (omega (arith, enough))
tick_pages-Listing s r each pages h (suc f) page last before w (last_page q) enough =
    ground (arith, h w.trace page, q)
tick_pages-Listing s r each pages h (suc f) page last before w (page_before {before = b} q l)
      enough =
    let w₁ = log (listed_pulls r.owner r.name page (ok (pages page))) w in
    let looked = for_each (pages page).items each w₁ in
    let rest =
      tick_pages-Listing s r each pages h f (pages page).next_page last b looked.1 l
        (omega (arith, enough)) in
    elim (Outcome-cases looked.0) [
      | inl (x, e) ↦ ground (arith, h w.trace page, q, e, rest)
      | inr (inl e) ↦ ground (arith, h w.trace page, q, e)
      | inr (inr e) ↦ ground (arith, h w.trace page, q, e)
    ]

-- While the listing gives an error, the same page is asked for again: no number of rounds is enough.
pub tick_pages_stuck :
    (s : Server) (r : Repository) (each : GhPull → M (Unit {0})) (e : Error) (page : ℕ)
    → ((t : List Event) → s.outside.pulls t r.owner r.name page ≡ err e)
    → (f : ℕ) (w : World) → (tick_pages f (list_pulls s r) each page w).0 ≡ unfinished
unfolding tick_pages list_pulls
tick_pages_stuck s r each e page h zero w = refl
tick_pages_stuck s r each e page h (suc f) w = ground (
  arith,
  h w.trace,
  tick_pages_stuck s r each e page h f (
      log (counted "IncreaseCronTaskErrors" "tick")
        (log (listed_pulls r.owner r.name page (err e)) w)),
)
