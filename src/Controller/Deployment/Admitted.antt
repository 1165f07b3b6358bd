-- ===== src/Controller/Deployment/Admitted.antt =====
-- From the webhook to the adapter: what becomes of a source that is admitted.
use mathlib.Core.Path.{subst}
use knative_source.Base.{
  ℕ, ◌≡◌, refl, ◌∙◌, sym, ap, ◌⊎◌, inl, inr, true, false, ◌||◌, is_some, Option, none, some, List,
  [], Str, str_eq, str_beq, ◌==◌, All, arith,
}
use knative_source.Base.Bytes.{bytes}
use knative_source.Base.Dict.{Dict}
use knative_source.Base.Duration.{Duration}
use knative_source.Base.Http.{UrlLib}
use knative_source.Base.Result.{ok}
use knative_source.Knative.{Destination, DefaultsSink}
use knative_source.Knative.FieldError.{FieldErrors, IsFieldErrors}
use knative_source.Api.Types.{YipYapSourceSpec, YipYapSource}
use knative_source.Api.Defaults.{spec_set_defaults, set_defaults}
use knative_source.Api.Defaults.Laws.{spec_set_defaults-IsDefaulted}
use knative_source.Api.Validation.{validate}
use knative_source.Api.Validation.Laws.{is_mode, is_valid, is_nil-validate}
use knative_source.Adapter.Config.{Config, CeOverridesEnvelope, load_config}
use knative_source.Adapter.Config.Interval.{IsPositive}
use knative_source.Adapter.Config.Laws.{is_acceptable, is_env_mode}
use knative_source.Adapter.Event.{CloudEvents}
use knative_source.Adapter.Mode.Hint.{IsBounded}
use knative_source.Adapter.Poll.{Payload}
use knative_source.Adapter.Process.{main}
use knative_source.Adapter.Process.Exits.{EndsWell, main_ends}
use knative_source.Adapter.Run.{Iteration, World}
use knative_source.Controller.Deployment.{url_text}
use knative_source.Controller.Deployment.Env.{
  adapter_getenv, adapter_getenv-mode, adapter_getenv-sink, adapter_getenv-api_key,
  adapter_getenv-interval, adapter_getenv-IsMarshalled,
}

env_mode :
    (mode : Str)
    → is_mode mode ≡ true
    → (mode == []) ≡ false
    → (mode == bytes "auto") ≡ false
    → is_env_mode mode ≡ true
env_mode mode known set explicit = ground arith

module _ (marshal_overrides : Dict Str Str → Option Str) (child_name : Str → Str → Str)
    (secret : Str → Str → Str) (unmarshal : Str → Option CeOverridesEnvelope)
    (parse_duration : Str → Option Duration) where
  abbrev environment : YipYapSourceSpec → Option Str → Str → Str
  environment spec sink = adapter_getenv marshal_overrides child_name secret spec sink

  -- What the adapter's JSON decodes again of what the controller's JSON encodes.
  abbrev pub Decodes : Type 0
  Decodes =
      (exts : Dict Str Str) (v : Str)
      → marshal_overrides exts ≡ some v
      → is_some (unmarshal v) ≡ true

  -- Each Secret that is named has a value at each key.
  abbrev pub HasSecrets : Type 0
  HasSecrets =
      (name key : Str)
      → (name == []) ≡ false
      → (key == []) ≡ false
      → (secret name key == []) ≡ false

  overrides-acceptable :
      (v : Str)
      → Decodes
      → (v ≡ []) ⊎ ((exts : Dict Str Str) × (marshal_overrides exts ≡ some v))
      → ((v == []) || is_some (unmarshal v)) ≡ true
  unfolding str_beq
  overrides-acceptable v decodes (inl unset) = rw unset refl
  overrides-acceptable v decodes (inr (exts, marshalled)) =
      ground (arith, decodes exts v marshalled)

  rendered-acceptable :
      (spec : YipYapSourceSpec) (sink : Option Str)
      → Decodes
      → is_env_mode spec.mode ≡ true
      → (url_text sink == []) ≡ false
      → (secret spec.api_key_ref.name spec.api_key_ref.key == []) ≡ false
      → is_acceptable unmarshal parse_duration (environment spec sink) ≡ true
  unfolding is_acceptable str_beq
  rendered-acceptable spec sink decodes mode resolved keyed =
      rw
        (
          adapter_getenv-sink marshal_overrides child_name secret spec sink,
          adapter_getenv-api_key marshal_overrides child_name secret spec sink,
          adapter_getenv-mode marshal_overrides child_name secret spec sink,
          adapter_getenv-interval marshal_overrides child_name secret spec sink,
          resolved,
          keyed,
          mode,
          overrides-acceptable _ decodes
              (adapter_getenv-IsMarshalled marshal_overrides child_name secret spec sink),
        )
        refl

  module _ (f : FieldErrors) (lawful : IsFieldErrors f) (match_error : Str → Option Str)
      (itoa : ℕ → Str) (sink_validate : Destination → f.FieldError) where
    valid-name :
        (s : YipYapSourceSpec)
        → is_valid f lawful match_error itoa sink_validate s ≡ true
        → (s.api_key_ref.name == []) ≡ false
    unfolding is_valid
    valid-name s valid = ground arith

    valid-mode :
        (s : YipYapSourceSpec)
        → is_valid f lawful match_error itoa sink_validate s ≡ true
        → is_mode s.mode ≡ true
    unfolding is_valid
    valid-mode s valid = ground arith

    module _ {C : Type 0} (sink_defaults : DefaultsSink) (src src' : YipYapSource C)
        (sink : Option Str) (defaulted : set_defaults sink_defaults (some src) ≡ some src')
        (admitted : f.is_nil (validate f match_error itoa sink_validate src') ≡ true) where
      spec_defaulted : src'.spec ≡ spec_set_defaults sink_defaults src.meta.namespace src.spec
      unfolding set_defaults spec_set_defaults
      spec_defaulted = sym (ap (λ o. elim o [ none ↦ src.spec | some y ↦ y.spec ]) defaulted)

      admitted-valid : is_valid f lawful match_error itoa sink_validate src'.spec ≡ true
      admitted-valid = sym (is_nil-validate f lawful match_error itoa sink_validate src') ∙ admitted

      admitted-key : (src'.spec.api_key_ref.key == []) ≡ false
      admitted-key =
          subst (λ (t : YipYapSourceSpec). (t.api_key_ref.key == []) ≡ false) (sym spec_defaulted)
            (spec_set_defaults-IsDefaulted sink_defaults src.meta.namespace src.spec).key_set

      admitted-mode : (src.spec.mode == []) ≡ false → src'.spec.mode ≡ src.spec.mode
      admitted-mode set =
          subst (λ (t : YipYapSourceSpec). t.mode ≡ src.spec.mode) (sym spec_defaulted)
            ((spec_set_defaults-IsDefaulted sink_defaults src.meta.namespace src.spec).mode_kept
              set)

      admitted-acceptable :
          Decodes
          → HasSecrets
          → (src.spec.mode == []) ≡ false
          → (src.spec.mode == bytes "auto") ≡ false
          → (url_text sink == []) ≡ false
          → is_acceptable unmarshal parse_duration (environment src'.spec sink) ≡ true
      admitted-acceptable decodes secrets set explicit resolved =
          let kept = admitted-mode set in
          rendered-acceptable src'.spec sink decodes
            (env_mode src'.spec.mode (valid-mode src'.spec admitted-valid) (rw kept set)
              (rw kept explicit))
            resolved (secrets _ _ (valid-name src'.spec admitted-valid) admitted-key)

      -- The adapter of a source that is defaulted and then admitted, whose mode is set and not "auto",
      -- works: its process loads the rendered variables, runs and ends with status 0. The sink is
      -- resolved, each named Secret has a value, the overrides decode again, intervals that parse are
      -- positive and the server's hints are bounded.
      pub admitted_works :
          (net : UrlLib) (ce : CloudEvents) (decode_payload : Str → Option Payload) (w : World)
          (its : List Iteration) (s : w.State)
          → Decodes
          → HasSecrets
          → (src.spec.mode == []) ≡ false
          → (src.spec.mode == bytes "auto") ≡ false
          → (url_text sink == []) ≡ false
          → IsPositive parse_duration
          → All (λ it. IsBounded it.hints) its
          → (cfg : Config) × (load_config unmarshal parse_duration (environment src'.spec sink)
              ≡ ok cfg)
            × EndsWell unmarshal parse_duration net ce decode_payload w cfg its s (
                main unmarshal parse_duration net ce decode_payload w
                  (environment src'.spec sink)
                  its
                  s)
      admitted_works net ce decode_payload w its s decodes secrets set explicit resolved positive
            bounded =
          let acceptable = admitted-acceptable decodes secrets set explicit resolved in
          elim (main_ends unmarshal parse_duration net ce decode_payload w
            (environment src'.spec sink) its s positive bounded) [
              | inl (cfg, accepted, loaded, well) ↦ (cfg, loaded, well)
              | inr (refused, rest) ↦ absurd (cc)
            ]
