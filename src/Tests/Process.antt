-- ===== src/Tests/Process.antt =====
-- Runs of the theorems on the adapter's process.
use knative_source.Base.{◌≡◌, refl, ◌⊎◌, inl, arith, true, false, some, [], ◌∷◌, All, str_eq}
use knative_source.Base.Bytes.{bytes}
use knative_source.Base.Result.{ok}
use knative_source.Adapter.Config.{Config, load_config}
use knative_source.Adapter.Config.Laws.{is_acceptable}
use knative_source.Adapter.Config.Interval.{IsPositive}
use knative_source.Adapter.Mode.Hint.{IsBounded}
use knative_source.Adapter.Process.{main}
use knative_source.Adapter.Process.Exits.{EndsWell, Refuses, main_ends}
use knative_source.Adapter.Run.{Iteration}
use knative_source.Api.Defaults.{spec_set_defaults}
use knative_source.Controller.Deployment.{adapter_env, make_adapter_deployment}
use knative_source.Controller.Deployment.Env.{adapter_getenv}
use knative_source.Controller.Deployment.Process.{IsProbed, auto_refused, probes_answered}
use knative_source.Tests.Fixtures.{net, ce, hints}
use knative_source.Tests.Server.{decode_payload}
use knative_source.Tests.World.{world}
use knative_source.Tests.Source.{source, spec}
use knative_source.Tests.Environment.{
  no_overrides, child_name, secret, unmarshal, parse_duration, environment, environment-loaded,
}

abbrev pub iteration : Iteration
iteration = record { hints = hints; cancelled_wait = false; ticks = []; attempts = [] }

pub parse_duration-IsPositive : IsPositive parse_duration
parse_duration-IsPositive raw d h = ground arith

pub hints-IsBounded : IsBounded hints
hints-IsBounded body h e = ground arith

main_ends_example :
    let e =
      main unmarshal parse_duration net ce decode_payload world environment
        (iteration ∷ [])
        ([], []) in
    ((cfg : Config) × (is_acceptable unmarshal parse_duration environment ≡ true)
      × (load_config unmarshal parse_duration environment ≡ ok cfg)
      × EndsWell unmarshal parse_duration net ce decode_payload world cfg
          (iteration ∷ [])
          ([], [])
          e)
    ⊎ ((is_acceptable unmarshal parse_duration environment ≡ false)
        × Refuses unmarshal parse_duration net ce decode_payload world ([], []) e)
main_ends_example =
    main_ends unmarshal parse_duration net ce decode_payload world environment (iteration ∷ [])
      ([], []) parse_duration-IsPositive (hints-IsBounded, tt)

auto_refused_example :
    Refuses unmarshal parse_duration net ce decode_payload world
      ([], [])
      (main unmarshal parse_duration net ce decode_payload world
        (adapter_getenv no_overrides child_name secret
          (spec_set_defaults (λ namespace d. d) (bytes "ns") (record spec { mode = [] }))
          (some (bytes "http://sink")))
        (iteration ∷ [])
        ([], []))
auto_refused_example =
    auto_refused no_overrides child_name secret unmarshal parse_duration net ce decode_payload world
      (λ namespace d. d) (bytes "ns") (record spec { mode = [] }) (some (bytes "http://sink"))
      (iteration ∷ []) ([], []) (inl refl)

probes_answered_example :
    All
      (IsProbed no_overrides child_name secret unmarshal parse_duration
        (adapter_env no_overrides child_name source.spec (some (bytes "http://sink")))
        (bytes ":8080"))
      (make_adapter_deployment no_overrides child_name source
        (some (bytes "http://sink"))
        (bytes "image")).template.spec.containers
probes_answered_example =
    probes_answered no_overrides child_name secret unmarshal parse_duration source
      (some (bytes "http://sink")) (bytes "image") environment-loaded
