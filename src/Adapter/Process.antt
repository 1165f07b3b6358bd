-- ===== src/Adapter/Process.antt =====
-- cmd/receive-adapter/main.go
pub mod Exits
use knative_source.Base.{ℕ, Bool, true, false, Option, none, some, List, [], ◌∷◌, Str, str_eq}
use knative_source.Base.Bytes.{bytes}
use knative_source.Base.Dict.{Dict, insert, lookup}
use knative_source.Base.Duration.{Duration}
use knative_source.Base.Http.{UrlLib, Reply, response}
use knative_source.Base.Result.{Result, ok, err}
use knative_source.Adapter.Config.{Config, ConfigError, CeOverridesEnvelope, load_config}
use knative_source.Adapter.Event.{CloudEvents}
use knative_source.Adapter.Poll.{Payload}
use knative_source.Adapter.Run.{Iteration, RunEnd, World, run}

-- The health server: its address, and the reply of each path that its mux knows.
pub record HealthServer : Type 0 where
  pub addr : Str
  pub mux : Dict Str Reply

unfoldable pub new_health_server : Str → HealthServer
new_health_server addr = record {
  addr = addr;
  mux =
      insert (bytes "/readyz") (response 200 (bytes "ready"))
        (insert (bytes "/healthz") (response 200 (bytes "ok")) []);
}

-- What `ServeMux` answers at a path that is clean.
unfoldable pub serve : HealthServer → Str → Reply
serve srv path = elim (lookup path srv.mux) [
  | none ↦ response 404 (bytes "404 page not found\n")
  | some reply ↦ reply
]

-- What the process does, beside what the adapter does: each line of error, and the health server's
-- start and shutdown.
pub data Action : Type 0 where
  config_error : ConfigError → Action
  health_started : HealthServer → Action
  health_shut_down : Action

pub data ExitStatus : Type 0 where
  exited : ℕ → ExitStatus
  crashed : ExitStatus

pub record ProcessEnd (W : Type 0) : Type 0 where
  pub actions : List Action
  pub status : ExitStatus
  pub world : W

module _ (unmarshal : Str → Option CeOverridesEnvelope) (parse_duration : Str → Option Duration)
    (net : UrlLib) (ce : CloudEvents) (decode_payload : Str → Option Payload) (w : World) where
  open w use {State}

  -- Behind `Run`: a panic skips the shutdown, and the error of a context that ends is not logged.
  after_run : HealthServer → RunEnd State → ProcessEnd State
  after_run srv end = elim end.panicked [
    | true ↦ record { actions = health_started srv ∷ []; status = crashed; world = end.world }
    | false ↦ record {
      actions = health_started srv ∷ health_shut_down ∷ [];
      status = exited 0;
      world = end.world;
    }
  ]

  with_config : Result ConfigError Config → List Iteration → State → ProcessEnd State
  unfolding after_run
  with_config (err e) its s = record { actions = config_error e ∷ []; status = exited 2; world = s }
  with_config (ok cfg) its s =
      after_run (new_health_server cfg.health_addr) (run net ce decode_payload w cfg its s)

  -- `main`, under an environment. The list of iterations ends where a signal ends the context.
  unfoldable pub main : (Str → Str) → List Iteration → State → ProcessEnd State
  unfolding with_config
  main getenv its s = with_config (load_config unmarshal parse_duration getenv) its s
