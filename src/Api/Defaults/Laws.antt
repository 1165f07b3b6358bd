-- ===== src/Api/Defaults/Laws.antt =====
-- What the defaulting webhook leaves in a source.
use knative_source.Base.{◌≡◌, false, [], arith}
use knative_source.Base.{Str, str_eq, str_beq, ◌==◌}
use knative_source.Knative.{DefaultsSink, Destination}
use knative_source.Api.Types.{YipYapSourceSpec}
use knative_source.Api.Defaults.{spec_set_defaults}

module _ (sink_defaults : DefaultsSink) (namespace : Str) (s : YipYapSourceSpec)
    (idempotent : (d : Destination)
      → sink_defaults namespace (sink_defaults namespace d) ≡ sink_defaults namespace d) where
  -- Defaulting again changes nothing, if that is so of the sink.
  pub spec_set_defaults_idem :
      spec_set_defaults sink_defaults namespace (spec_set_defaults sink_defaults namespace s)
      ≡ spec_set_defaults sink_defaults namespace s
  unfolding spec_set_defaults str_beq
  spec_set_defaults_idem = ground (arith, idempotent s.sink)

module _ (sink_defaults : DefaultsSink) (namespace : Str) (s : YipYapSourceSpec) where
  -- A defaulted spec has a key, a base URL and a mode; what was set is kept, and the name of the
  -- Secret, the filter, the overrides and the service account are as they were.
  pub record IsDefaulted (t : YipYapSourceSpec) : Type 0 where
    pub key_set : (t.api_key_ref.key == []) ≡ false
    pub base_url_set : (t.base_url == []) ≡ false
    pub mode_set : (t.mode == []) ≡ false
    pub key_kept : (s.api_key_ref.key == []) ≡ false → t.api_key_ref.key ≡ s.api_key_ref.key
    pub base_url_kept : (s.base_url == []) ≡ false → t.base_url ≡ s.base_url
    pub mode_kept : (s.mode == []) ≡ false → t.mode ≡ s.mode
    pub secret_kept : t.api_key_ref.name ≡ s.api_key_ref.name
    pub filter_kept : t.filter ≡ s.filter
    pub overrides_kept : t.ce_overrides ≡ s.ce_overrides
    pub account_kept : t.service_account_name ≡ s.service_account_name

  pub spec_set_defaults-IsDefaulted : IsDefaulted (spec_set_defaults sink_defaults namespace s)
  unfolding spec_set_defaults str_beq
  spec_set_defaults-IsDefaulted = ground arith
