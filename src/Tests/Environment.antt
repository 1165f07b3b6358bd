-- ===== src/Tests/Environment.antt =====
-- The environment of an adapter that the controller renders, and the libraries that load it.
use knative_source.Base.{
  ◌≡◌, refl, ◌*◌, ◌++◌, Option, none, some, [], ◌∷◌, Str, str_eq, str_beq, ◌==◌, if◌then◌else◌,
}
use knative_source.Base.Bytes.{bytes, split, join}
use knative_source.Base.Bytes.Trim.{trim_space}
use knative_source.Base.Dict.{Dict}
use knative_source.Base.Duration.{Duration, second}
use knative_source.Base.Int.{pos}
use knative_source.Base.Result.{ok}
use knative_source.Api.Types.{YipYapSourceSpec}
use knative_source.Adapter.Config.{
  Config, CeOverridesEnvelope, load_config, parse_event_filters, default_str,
}
use knative_source.Controller.Deployment.{adapter_env}
use knative_source.Controller.Deployment.Env.{adapter_getenv, getenv_of}
use knative_source.Tests.Source.{filter, spec}

abbrev pub no_overrides : Dict Str Str → Option Str
no_overrides m = none

abbrev pub child_name : Str → Str → Str
child_name parent suffix = parent ++ suffix

abbrev pub secret : Str → Str → Str
secret name key = bytes "k"

abbrev pub unmarshal : Str → Option CeOverridesEnvelope
unmarshal s = none

abbrev pub parse_duration : Str → Option Duration
parse_duration s = if s == bytes "7s" then some (pos (7 * second)) else none

abbrev pub environment : Str → Str
environment = adapter_getenv no_overrides child_name secret spec (some (bytes "http://sink"))

abbrev pub loaded : Config
loaded = record {
  sink = bytes "http://sink";
  ce_overrides = [];
  api_key = bytes "k";
  base_url = bytes "https://console.yipyap.run";
  event_filters = filter.types;
  mode = bytes "poll";
  poll_interval = pos (5 * second);
  cursor_path = bytes "/var/run/yipyap/cursor";
  health_addr = bytes ":8080";
  cr_mode_file_path = bytes "/etc/yipyap/source-mode";
}

pub environment-loaded : load_config unmarshal parse_duration environment ≡ ok loaded
unfolding load_config str_beq parse_event_filters split trim_space default_str adapter_env getenv_of
    join
environment-loaded = refl

-- A source with a comma in a type, and what its adapter loads.
abbrev pub spec_comma : YipYapSourceSpec
spec_comma = record spec {
  filter = some (record filter { types = bytes "[a,b]" ∷ bytes "c" ∷ [] });
}

abbrev pub loaded_comma : Config
loaded_comma = record loaded { event_filters = bytes "[a" ∷ bytes "b]" ∷ bytes "c" ∷ [] }

pub comma_loaded :
    load_config unmarshal parse_duration
      (adapter_getenv no_overrides child_name secret spec_comma (some (bytes "http://sink")))
    ≡ ok loaded_comma
unfolding load_config str_beq parse_event_filters split trim_space default_str adapter_env getenv_of
    join
comma_loaded = refl
