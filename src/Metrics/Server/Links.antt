-- ===== src/Metrics/Server/Links.antt =====
-- metrics/server.go: the links of the root page lead to the handlers.
use mattermost_mattermod.Base.{
  String, Bool, true, false, Option, some, List, [], ◌∷◌, ◌++◌, ◌≡◌, refl, mem, map, All, take,
  drop, ℕ, suc,
}
use mattermost_mattermod.Base.Text.{contains, has_prefix}
use mattermost_mattermod.Metrics.Server.{
  Handler, Profiles, MetricsServer, provider_handler, new_server, routes, link, links, handle_root,
}

module _ {A : Type 0} where
  -- What gorilla/mux says of its router: routes are tested in the order in which they were added, so
  -- a path goes to the first route that has it.
  abbrev pub TestsInOrder : (List (String × A) → String → Option A) → Type 0
  TestsInOrder router =
      (earlier later : List (String × A)) (path : String) (handler : A)
      → mem path (map (λ r. r.0) earlier) ≡ false
      → router (earlier ++ (path, handler) ∷ later) path ≡ some handler

  -- Following the link of a handler on the root page leads to the handler.
  abbrev pub Linked :
      (List (String × A) → String → Option A) → A → MetricsServer A → Handler A → Type 0
  Linked router root m h =
      (contains (handle_root m) (link h) ≡ true) × (router (routes root m) h.path ≡ some h.handler)

  -- With or without the profiles, the root page of the metrics server has a link for each handler,
  -- which leads to it: no two handlers have one path.
  new_server-Linked :
      (router : List (String × A) → String → Option A) (root prometheus : A) (pprof : Profiles A)
      (port : String) (with_pprof : Bool)
      → TestsInOrder router
      → (let m = new_server pprof port (provider_handler prometheus) with_pprof in
          All (Linked router root m) m.handlers)
  unfolding new_server routes link links handle_root contains has_prefix
  new_server-Linked router root prometheus pprof port true ordered =
      let rs = routes root (new_server pprof port (provider_handler prometheus) true) in
      let at = λ (k : ℕ). ordered (take k rs) (drop rs (suc k)) in
      (
        (refl, at 1 "/metrics" prometheus refl),
        (
          (refl, at 2 "/debug/pprof/" pprof.index refl),
          (
            (refl, at 3 "/debug/pprof/cmdline" pprof.cmdline refl),
            (
              (refl, at 4 "/debug/pprof/symbol" pprof.symbol refl),
              (
                (refl, at 5 "/debug/pprof/goroutine" (pprof.profile "goroutine") refl),
                (
                  (refl, at 6 "/debug/pprof/heap" (pprof.profile "heap") refl),
                  (
                    (refl, at 7 "/debug/pprof/threadcreate" (pprof.profile "threadcreate") refl),
                    ((refl, at 8 "/debug/pprof/block" (pprof.profile "block") refl), tt),
                  ),
                ),
              ),
            ),
          ),
        ),
      )
  new_server-Linked router root prometheus pprof port false ordered =
      ((refl, ordered (("/", root) ∷ []) [] "/metrics" prometheus refl), tt)
