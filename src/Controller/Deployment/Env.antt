-- ===== src/Controller/Deployment/Env.antt =====
-- What the adapter's process reads from the variables that the controller sets.
use mathlib.Core.Path.{subst}
use knative_source.Base.{
  ◌≡◌, refl, sym, ◌⊎◌, inl, inr, Bool-cases, Option-cases, Option, none, some, List, [], ◌∷◌, ◌++◌,
  if◌then◌else◌, Str, str_eq, str_beq, ◌==◌, arith, ltb, length,
}
use knative_source.Base.Bytes.{bytes, join}
use knative_source.Base.Dict.{Dict}
use knative_source.Api.Types.{YipYapSourceFilter, YipYapSourceSpec}
use knative_source.Controller.Kube.{EnvValue, literal, secret_key, EnvVar}
use knative_source.Controller.Deployment.{adapter_env, filter_env, overrides_env, url_text}

-- How a kubelet gives a container its variables: a variable that is not listed reads as empty, and
-- the key of a Secret as what the Secret holds.
module _ (secret : Str → Str → Str) where
  abbrev pub value_of : EnvValue → Str
  value_of (literal v) = v
  value_of (secret_key name key) = secret name key

  unfoldable pub getenv_of : List EnvVar → Str → Str
  getenv_of [] k = []
  getenv_of (v ∷ vs) k = if v.name == k then value_of v.value else getenv_of vs k

module _ (marshal_overrides : Dict Str Str → Option Str) (child_name : Str → Str → Str)
    (secret : Str → Str → Str) (spec : YipYapSourceSpec) (sink : Option Str) where
  abbrev pub adapter_getenv : Str → Str
  adapter_getenv = getenv_of secret (adapter_env marshal_overrides child_name spec sink)

  pub adapter_getenv-mode : adapter_getenv (bytes "YIPYAP_MODE") ≡ spec.mode
  unfolding getenv_of adapter_env str_beq
  adapter_getenv-mode = refl

  pub adapter_getenv-sink : adapter_getenv (bytes "K_SINK") ≡ url_text sink
  unfolding getenv_of adapter_env str_beq
  adapter_getenv-sink = refl

  pub adapter_getenv-api_key :
      adapter_getenv (bytes "YIPYAP_API_KEY") ≡ secret spec.api_key_ref.name spec.api_key_ref.key
  unfolding getenv_of adapter_env str_beq
  adapter_getenv-api_key = refl

  pub adapter_getenv-health_addr : adapter_getenv (bytes "YIPYAP_HEALTH_ADDR") ≡ []
  unfolding getenv_of adapter_env str_beq
  adapter_getenv-health_addr = ground arith

  pub adapter_getenv-interval : adapter_getenv (bytes "YIPYAP_POLL_INTERVAL") ≡ []
  unfolding getenv_of adapter_env str_beq
  adapter_getenv-interval = ground arith

module _ (marshal_overrides : Dict Str Str → Option Str) (child_name : Str → Str → Str)
    (secret : Str → Str → Str) where
  overrides_getenv-filter :
      (exts : Option (Dict Str Str))
      → getenv_of secret
          (overrides_env marshal_overrides child_name exts)
          (bytes "YIPYAP_EVENT_FILTER")
        ≡ []
  unfolding getenv_of overrides_env str_beq
  overrides_getenv-filter none = refl
  overrides_getenv-filter (some exts) = ground arith

  abbrev pub joined_types : Option YipYapSourceFilter → Str
  joined_types none = []
  joined_types (some fl) = join b',' fl.types

  types_getenv-filter :
      (types : List Str) (rest : List EnvVar)
      → getenv_of secret rest (bytes "YIPYAP_EVENT_FILTER") ≡ []
      → getenv_of secret
          ((if ltb 0 (length types)
              then record { name = bytes "YIPYAP_EVENT_FILTER"; value = literal (join b',' types) }
                ∷ []
              else [])
            ++ rest)
          (bytes "YIPYAP_EVENT_FILTER")
        ≡ join b',' types
  unfolding getenv_of str_beq join
  types_getenv-filter [] rest h = h
  types_getenv-filter (t ∷ ts) rest h = ground arith

  rest_getenv-filter :
      (filter : Option YipYapSourceFilter) (exts : Option (Dict Str Str))
      → getenv_of secret
          (filter_env marshal_overrides child_name filter
            ++ overrides_env marshal_overrides child_name exts)
          (bytes "YIPYAP_EVENT_FILTER")
        ≡ joined_types filter
  unfolding filter_env
  rest_getenv-filter none exts = overrides_getenv-filter exts
  rest_getenv-filter (some fl) exts = types_getenv-filter fl.types _ (overrides_getenv-filter exts)

  pub adapter_getenv-filter :
      (spec : YipYapSourceSpec) (sink : Option Str)
      → getenv_of secret
          (adapter_env marshal_overrides child_name spec sink)
          (bytes "YIPYAP_EVENT_FILTER")
        ≡ joined_types spec.filter
  unfolding getenv_of adapter_env str_beq
  adapter_getenv-filter spec sink = rest_getenv-filter spec.filter spec.ce_overrides

  filter_getenv-overrides :
      (filter : Option YipYapSourceFilter) (rest : List EnvVar)
      → getenv_of secret
          (filter_env marshal_overrides child_name filter ++ rest)
          (bytes "K_CE_OVERRIDES")
        ≡ getenv_of secret rest (bytes "K_CE_OVERRIDES")
  unfolding getenv_of filter_env str_beq
  filter_getenv-overrides none rest = refl
  filter_getenv-overrides (some fl) rest = elim (Bool-cases (ltb 0 (length fl.types))) [
    | inl some_types ↦ rw some_types refl
    | inr no_types ↦ rw no_types refl
  ]

  -- The overrides are unset, or what was marshalled.
  abbrev pub IsMarshalled : Str → Type 0
  IsMarshalled v = (v ≡ []) ⊎ ((exts : Dict Str Str) × (marshal_overrides exts ≡ some v))

  overrides_getenv-IsMarshalled :
      (exts : Option (Dict Str Str))
      → IsMarshalled (
          getenv_of secret
            (overrides_env marshal_overrides child_name exts)
            (bytes "K_CE_OVERRIDES"))
  unfolding getenv_of overrides_env str_beq
  overrides_getenv-IsMarshalled none = inl refl
  overrides_getenv-IsMarshalled (some exts) = elim (Bool-cases (ltb 0 (length exts))) [
    | inr none_set ↦ rw none_set (inl refl)
    | inl set ↦ elim (Option-cases (marshal_overrides exts)) [
      | inl failed ↦ rw (set, failed) (inl refl)
      | inr (v, marshalled) ↦ rw (set, marshalled) (inr (exts, marshalled))
    ]
  ]

  pub adapter_getenv-IsMarshalled :
      (spec : YipYapSourceSpec) (sink : Option Str)
      → IsMarshalled (
          getenv_of secret
            (adapter_env marshal_overrides child_name spec sink)
            (bytes "K_CE_OVERRIDES"))
  unfolding getenv_of adapter_env str_beq
  adapter_getenv-IsMarshalled spec sink =
      subst IsMarshalled (sym (filter_getenv-overrides spec.filter _))
        (overrides_getenv-IsMarshalled spec.ce_overrides)
