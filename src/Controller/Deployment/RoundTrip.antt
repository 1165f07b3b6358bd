-- ===== src/Controller/Deployment/RoundTrip.antt =====
-- What `LoadConfig` makes of the variables that `MakeAdapterDeployment` writes.
use knative_source.Base.{
  ◌≡◌, refl, ◌∙◌, ◌⊎◌, inl, inr, ap, false, Option, none, some, List, [], Str, str_eq, str_beq,
  arith,
}
use knative_source.Base.Bytes.{bytes}
use knative_source.Base.Dict.{Dict}
use knative_source.Base.Duration.{Duration}
use knative_source.Base.Result.{is_ok}
use knative_source.Knative.{DefaultsSink}
use knative_source.Api.Types.{YipYapSourceFilter, YipYapSourceSpec}
use knative_source.Api.Defaults.{spec_set_defaults}
use knative_source.Adapter.Config.{Config, CeOverridesEnvelope, load_config}
use knative_source.Adapter.Config.Laws.{is_acceptable, is_env_mode, is_ok-load_config}
use knative_source.Controller.Deployment.Env.{adapter_getenv, adapter_getenv-mode}

-- The types that a filter asks for.
abbrev pub types_of : Option YipYapSourceFilter → List Str
types_of none = []
types_of (some fl) = fl.types

module _ (marshal_overrides : Dict Str Str → Option Str) (child_name : Str → Str → Str)
    (secret : Str → Str → Str) (unmarshal : Str → Option CeOverridesEnvelope)
    (parse_duration : Str → Option Duration) where
  abbrev environment : YipYapSourceSpec → Option Str → Str → Str
  environment spec sink = adapter_getenv marshal_overrides child_name secret spec sink

  is_acceptable-false :
      (getenv : Str → Str)
      → is_env_mode (getenv (bytes "YIPYAP_MODE")) ≡ false
      → is_acceptable unmarshal parse_duration getenv ≡ false
  unfolding is_acceptable
  is_acceptable-false getenv h = ground arith

  auto_mode :
      (sink_defaults : DefaultsSink) (namespace : Str) (spec : YipYapSourceSpec)
      → (spec.mode ≡ []) ⊎ (spec.mode ≡ bytes "auto")
      → (spec_set_defaults sink_defaults namespace spec).mode ≡ bytes "auto"
  unfolding spec_set_defaults str_beq
  auto_mode sink_defaults namespace spec (inl h) = rw h refl
  auto_mode sink_defaults namespace spec (inr h) = rw h refl

  not_env_mode : is_env_mode (bytes "auto") ≡ false
  unfolding str_beq
  not_env_mode = refl

  -- A source whose mode is unset or "auto" is defaulted to "auto", and the adapter refuses to load
  -- the variables that the controller renders for it, whatever else it asks for.
  pub auto_not_loaded :
      (sink_defaults : DefaultsSink) (namespace : Str) (spec : YipYapSourceSpec) (sink : Option Str)
      → (spec.mode ≡ []) ⊎ (spec.mode ≡ bytes "auto")
      → is_ok (
          load_config unmarshal parse_duration
            (environment (spec_set_defaults sink_defaults namespace spec) sink))
        ≡ false
  auto_not_loaded sink_defaults namespace spec sink h =
      let defaulted = spec_set_defaults sink_defaults namespace spec in
      is_ok-load_config unmarshal parse_duration (environment defaulted sink)
      ∙ is_acceptable-false (environment defaulted sink) (
          ap is_env_mode (
            adapter_getenv-mode marshal_overrides child_name secret defaulted sink
            ∙ auto_mode sink_defaults namespace spec h)
          ∙ not_env_mode)
