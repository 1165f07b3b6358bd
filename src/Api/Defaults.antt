-- ===== src/Api/Defaults.antt =====
-- pkg/apis/sources/v1alpha1/yipyapsource_defaults.go
pub mod Laws
use knative_source.Base.{Option, none, some, [], if◌then◌else◌, Str, str_eq, ◌==◌}
use knative_source.Base.Bytes.{bytes}
use knative_source.Knative.{DefaultsSink}
use knative_source.Api.Types.{ApiKeyReference, YipYapSourceSpec, YipYapSource, mode_auto}

abbrev pub default_api_key_secret_key : Str
default_api_key_secret_key = bytes "api-key"

abbrev pub default_base_url : Str
default_base_url = bytes "https://console.yipyap.run"

module _ (sink_defaults : DefaultsSink) where
  -- The context is used for the namespace of the parent alone.
  unfoldable pub spec_set_defaults : Str → YipYapSourceSpec → YipYapSourceSpec
  spec_set_defaults namespace s = record s {
    api_key_ref =
        if s.api_key_ref.key == []
        then record s.api_key_ref { key = default_api_key_secret_key }
        else s.api_key_ref;
    base_url = if s.base_url == [] then default_base_url else s.base_url;
    mode = if s.mode == [] then mode_auto else s.mode;
    sink = sink_defaults namespace s.sink;
  }

  -- A nil receiver stays nil.
  unfoldable pub set_defaults : {C : Type 0} → Option (YipYapSource C) → Option (YipYapSource C)
  unfolding spec_set_defaults
  set_defaults none = none
  set_defaults (some y) = some (record y { spec = spec_set_defaults y.meta.namespace y.spec })
