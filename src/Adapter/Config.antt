-- ===== src/Adapter/Config.antt =====
-- cmd/receive-adapter/source/config.go
pub mod Laws
pub mod Interval
pub mod Filters
use knative_source.Base.{ℕ, ◌*◌, Bool, true, false, not, ◌&&◌, ◌||◌, Option, none, some}
use knative_source.Base.{List, [], ◌∷◌, ◌++◌, if◌then◌else◌, Str, str_eq, ◌==◌}
use knative_source.Base.Bytes.{bytes, split}
use knative_source.Base.Bytes.Trim.{trim_space}
use knative_source.Base.Dict.{Dict}
use knative_source.Base.Duration.{Duration, second}
use knative_source.Base.Int.{pos}
use knative_source.Base.Result.{Result, ok, err, ◌>>=◌, ◌>>◌, fail_if}

pub record Config : Type 0 where
  pub sink : Str
  pub ce_overrides : Dict Str Str
  pub api_key : Str
  pub base_url : Str
  pub event_filters : List Str
  pub mode : Str
  pub poll_interval : Duration
  pub cursor_path : Str
  pub health_addr : Str
  pub cr_mode_file_path : Str

-- The errors of `LoadConfig`, one for each `fmt.Errorf`.
pub data ConfigError : Type 0 where
  sink_required : ConfigError
  api_key_required : ConfigError
  invalid_overrides : ConfigError
  invalid_interval : Str → ConfigError
  invalid_mode : Str → ConfigError

-- `ceOverridesEnvelope`; `none` is a nil map.
pub record CeOverridesEnvelope : Type 0 where
  pub extensions : Option (Dict Str Str)

unfoldable pub default_str : Str → Str → Str
default_str v def = if v == [] then def else v

-- The loop over the parts, with the filters found so far.
filter_loop : List Str → List Str → List Str
filter_loop filters [] = filters
filter_loop filters (part ∷ parts) =
    let f = trim_space part in
    filter_loop (if not (f == []) then filters ++ (f ∷ []) else filters) parts

unfoldable pub parse_event_filters : Str → List Str
unfolding filter_loop
parse_event_filters raw = filter_loop [] (split b',' raw)

abbrev pub default_interval : Duration
default_interval = pos (5 * second)

-- What Go's packages encoding/json and time make of the two values that are parsed: `none` is an
-- error.
module _ (unmarshal : Str → Option CeOverridesEnvelope)
    (parse_duration : Str → Option Duration) where
  load_overrides : Str → Result ConfigError (Dict Str Str)
  load_overrides raw = if raw == [] then ok [] else elim (unmarshal raw) [
    | none ↦ err invalid_overrides
    | some env ↦ elim env.extensions [ none ↦ ok [] | some m ↦ ok m ]
  ]

  load_interval : Str → Result ConfigError Duration
  load_interval raw =
      if raw == []
      then ok default_interval
      else elim (parse_duration raw) [ none ↦ err (invalid_interval raw) | some d ↦ ok d ]

  load_mode : Str → Result ConfigError Str
  load_mode mode =
      if mode == [] || mode == bytes "poll" || mode == bytes "stream"
      then ok mode
      else err (invalid_mode mode)

  unfoldable pub load_config : (Str → Str) → Result ConfigError Config
  unfolding load_overrides load_interval load_mode
  load_config getenv = do
    fail_if (getenv (bytes "K_SINK") == []) sink_required
    fail_if (getenv (bytes "YIPYAP_API_KEY") == []) api_key_required
    overrides ← load_overrides (getenv (bytes "K_CE_OVERRIDES"))
    interval ← load_interval (getenv (bytes "YIPYAP_POLL_INTERVAL"))
    mode ← load_mode (getenv (bytes "YIPYAP_MODE"))
    ok (record {
      sink = getenv (bytes "K_SINK");
      ce_overrides = overrides;
      api_key = getenv (bytes "YIPYAP_API_KEY");
      base_url =
          default_str (getenv (bytes "YIPYAP_BASE_URL")) (bytes "https://console.yipyap.run");
      event_filters = parse_event_filters (getenv (bytes "YIPYAP_EVENT_FILTER"));
      mode = mode;
      poll_interval = interval;
      cursor_path =
          default_str (getenv (bytes "YIPYAP_CURSOR_PATH")) (bytes "/var/run/yipyap/cursor");
      health_addr = default_str (getenv (bytes "YIPYAP_HEALTH_ADDR")) (bytes ":8080");
      cr_mode_file_path = bytes "/etc/yipyap/source-mode";
    })
