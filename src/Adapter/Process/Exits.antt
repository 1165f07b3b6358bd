-- ===== src/Adapter/Process/Exits.antt =====
-- How the adapter's process ends.
use knative_source.Base.{
  ◌≡◌, refl, ◌∙◌, ap, ◌⊎◌, inl, inr, All, true, false, Option, List, [], ◌∷◌, Str, sym,
}
use knative_source.Base.Duration.{Duration}
use knative_source.Base.Http.{UrlLib}
use knative_source.Base.Int.{pos, ltb_ℤ}
use knative_source.Base.Result.{ok, err, is_ok, Result-cases}
use knative_source.Adapter.Config.{Config, ConfigError, CeOverridesEnvelope, load_config}
use knative_source.Adapter.Config.Laws.{is_acceptable, is_ok-load_config}
use knative_source.Adapter.Config.Interval.{IsPositive, load_config-positive}
use knative_source.Adapter.Event.{CloudEvents}
use knative_source.Adapter.Mode.Hint.{IsBounded}
use knative_source.Adapter.Poll.{Payload}
use knative_source.Adapter.Run.{Iteration, RunEnd, World, run}
use knative_source.Adapter.Run.Sessions.{run_safe}
use knative_source.Adapter.Process.{
  HealthServer, new_health_server, config_error, health_started, health_shut_down, exited,
  ProcessEnd, after_run, with_config, main,
}

module _ (unmarshal : Str → Option CeOverridesEnvelope) (parse_duration : Str → Option Duration)
    (net : UrlLib) (ce : CloudEvents) (decode_payload : Str → Option Payload) (w : World) where
  open w use {State}

  -- The start of a process that does its work: the health server runs from before `Run` to behind it.
  pub record EndsWell (cfg : Config) (its : List Iteration) (s : State) (e : ProcessEnd State)
      : Type 0 where
    pub status : e.status ≡ exited 0
    pub actions :
        e.actions ≡ health_started (new_health_server cfg.health_addr) ∷ health_shut_down ∷ []
    pub world : e.world ≡ (run net ce decode_payload w cfg its s).world

  -- A process that does nothing but report the error.
  pub record Refuses (s : State) (e : ProcessEnd State) : Type 0 where
    pub status : e.status ≡ exited 2
    pub actions : (error : ConfigError) × (e.actions ≡ config_error error ∷ [])
    pub world : e.world ≡ s

  after_run_well :
      (srv : HealthServer) (end : RunEnd State)
      → end.panicked ≡ false
      → after_run unmarshal parse_duration net ce decode_payload w srv end ≡ record {
        actions = health_started srv ∷ health_shut_down ∷ [];
        status = exited 0;
        world = end.world;
      }
  unfolding after_run
  after_run_well srv end safe = rw safe refl

  with_config-ok :
      (cfg : Config) (its : List Iteration) (s : State)
      → ltb_ℤ (pos 0) cfg.poll_interval ≡ true
      → All (λ it. IsBounded it.hints) its
      → EndsWell cfg its s
          (with_config unmarshal parse_duration net ce decode_payload w (ok cfg) its s)
  unfolding with_config
  with_config-ok cfg its s positive bounded =
      let well =
        after_run_well (new_health_server cfg.health_addr) (run net ce decode_payload w cfg its s)
          (run_safe net ce decode_payload w cfg its s positive bounded) in
      record {
        status = ap (λ (e : ProcessEnd State). e.status) well;
        actions = ap (λ (e : ProcessEnd State). e.actions) well;
        world = ap (λ (e : ProcessEnd State). e.world) well;
      }

  with_config-err :
      (e : ConfigError) (its : List Iteration) (s : State)
      → Refuses s (with_config unmarshal parse_duration net ce decode_payload w (err e) its s)
  unfolding with_config
  with_config-err e its s = record { status = refl; actions = (e, refl); world = refl }

  pub main-Refuses :
      (getenv : Str → Str) (its : List Iteration) (s : State)
      → is_ok (load_config unmarshal parse_duration getenv) ≡ false
      → Refuses s (main unmarshal parse_duration net ce decode_payload w getenv its s)
  unfolding main
  main-Refuses getenv its s bad =
      elim (Result-cases (load_config unmarshal parse_duration getenv)) [
        | inl (e, failed) ↦ rw failed (with_config-err e its s)
        | inr (cfg, loaded) ↦ absurd (cc)
      ]

  -- The process of the adapter, where configured intervals are positive and the server's hints are
  -- bounded: an environment that is acceptable is loaded, the health server runs at its address from
  -- before `Run` until behind it, and the process ends with status 0. Any other environment ends it
  -- with status 2 and an error, before the health server or `Run` is started.
  pub main_ends :
      (getenv : Str → Str) (its : List Iteration) (s : State)
      → IsPositive parse_duration
      → All (λ it. IsBounded it.hints) its
      → let e = main unmarshal parse_duration net ce decode_payload w getenv its s in
        ((cfg : Config) × (is_acceptable unmarshal parse_duration getenv ≡ true)
          × (load_config unmarshal parse_duration getenv ≡ ok cfg)
          × EndsWell cfg its s e)
        ⊎ ((is_acceptable unmarshal parse_duration getenv ≡ false) × Refuses s e)
  unfolding main
  main_ends getenv its s positive bounded =
      let accepted = is_ok-load_config unmarshal parse_duration getenv in
      elim (Result-cases (load_config unmarshal parse_duration getenv)) [
        | inl (e, failed) ↦
            inr (sym accepted ∙ ap is_ok failed, rw failed (with_config-err e its s))
        | inr (cfg, loaded) ↦ inl (
          cfg,
          sym accepted ∙ ap is_ok loaded,
          loaded,
          rw loaded (
              with_config-ok cfg its s
                (load_config-positive unmarshal parse_duration getenv positive loaded) bounded),
        )
      ]
