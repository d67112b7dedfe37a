-- ===== src/Metrics/Server.antt =====
-- metrics/server.go: the pages of the metrics server, and Handler of metrics/provider.go. A handler of
-- net/http is an element of `A`; those of net/http/pprof and of Prometheus are parameters.
pub mod Links
use mattermost_mattermod.Base.{String, Bool, true, false, List, [], ◌∷◌, ◌++◌, map, if◌then◌else◌}
use mattermost_mattermod.Base.Text.{◌+++◌}

pub record Handler (A : Type 0) : Type 0 where
  pub path : String
  pub description : String
  pub handler : A

-- What the package net/http/pprof has.
pub record Profiles (A : Type 0) : Type 0 where
  pub index : A
  pub cmdline : A
  pub symbol : A
  pub profile : String → A

pub record MetricsServer (A : Type 0) : Type 0 where
  pub port : String
  pub handlers : List (Handler A)

module _ {A : Type 0} where
  abbrev page : String → String → A → Handler A
  page path description handler = record {
    path = path;
    description = description;
    handler = handler;
  }

  -- PrometheusProvider.Handler
  abbrev pub provider_handler : A → Handler A
  provider_handler prometheus = page "/metrics" "Prometheus Metrics" prometheus

  -- pprofHandlers
  abbrev pub pprof_handlers : Profiles A → List (Handler A)
  pprof_handlers pprof =
      page "/debug/pprof/" "Profiling Root" pprof.index
      ∷ page "/debug/pprof/cmdline" "Profiling Command Line" pprof.cmdline
      ∷ page "/debug/pprof/symbol" "Profiling Symbols" pprof.symbol
      ∷ page "/debug/pprof/goroutine" "Profiling Goroutines" (pprof.profile "goroutine")
      ∷ page "/debug/pprof/heap" "Profiling Heap" (pprof.profile "heap")
      ∷ page "/debug/pprof/threadcreate" "Profiling Threads" (pprof.profile "threadcreate")
      ∷ page "/debug/pprof/block" "Profiling Blockings" (pprof.profile "block")
      ∷ []

  -- NewServer
  unfoldable pub new_server : Profiles A → String → Handler A → Bool → MetricsServer A
  new_server pprof port handler with_pprof = record {
    port = port;
    handlers = if with_pprof then handler ∷ pprof_handlers pprof else handler ∷ [];
  }

  -- The routes that Start registers, in their order.
  unfoldable pub routes : A → MetricsServer A → List (String × A)
  routes root m = ("/", root) ∷ map (λ h. (h.path, h.handler)) m.handlers

  -- A handler's line of the root page.
  unfoldable pub link : Handler A → String
  link h = "<div><a href=\"" +++ h.path +++ "\">" +++ h.description +++ "</a></div>\n"

  unfoldable pub links : List (Handler A) → String
  unfolding link
  links [] = ""
  links (h ∷ hs) = link h +++ links hs

  -- handleRoot: the page that it writes.
  unfoldable pub handle_root : MetricsServer A → String
  unfolding links
  handle_root m =
      "\n\t\t<html>\n\t\t\t<body>\n\t\t\t\t"
      +++ links m.handlers
      +++ "\n\t\t\t</body>\n\t\t</html>\n\t"
