-- ===== src/Adapter/Config/Laws.antt =====
-- What `LoadConfig` accepts, and what it returns then.
use knative_source.Base.{◌≡◌, Bool, true, false, not, ◌&&◌, ◌||◌, Option, [], arith}
use knative_source.Base.{Str, str_eq, ◌==◌, is_some}
use knative_source.Base.Bytes.{bytes}
use knative_source.Base.Duration.{Duration}
use knative_source.Base.Result.{ok, is_ok}
use knative_source.Adapter.Config.{
  Config, CeOverridesEnvelope, load_config, parse_event_filters, default_str,
}

-- The three modes that the variable may name.
abbrev pub is_env_mode : Str → Bool
is_env_mode mode = mode == [] || mode == bytes "poll" || mode == bytes "stream"

module _ (unmarshal : Str → Option CeOverridesEnvelope) (parse_duration : Str → Option Duration)
    (getenv : Str → Str) where
  -- The conditions on the environment, with no order among them.
  unfoldable pub is_acceptable : Bool
  is_acceptable =
      not (getenv (bytes "K_SINK") == [])
      && not (getenv (bytes "YIPYAP_API_KEY") == [])
      && (getenv (bytes "K_CE_OVERRIDES") == []
          || is_some (unmarshal (getenv (bytes "K_CE_OVERRIDES"))))
      && (getenv (bytes "YIPYAP_POLL_INTERVAL") == []
          || is_some (parse_duration (getenv (bytes "YIPYAP_POLL_INTERVAL"))))
      && is_env_mode (getenv (bytes "YIPYAP_MODE"))

  -- The configuration is loaded exactly when K_SINK and YIPYAP_API_KEY are set, what is set of
  -- K_CE_OVERRIDES and YIPYAP_POLL_INTERVAL parses, and YIPYAP_MODE is empty, "poll" or "stream".
  pub is_ok-load_config : is_ok (load_config unmarshal parse_duration getenv) ≡ is_acceptable
  unfolding load_config is_acceptable
  is_ok-load_config = ground arith

  -- What a loaded configuration is known to hold.
  pub record IsLoaded (c : Config) : Type 0 where
    pub sink_kept : c.sink ≡ getenv (bytes "K_SINK")
    pub sink_set : (c.sink == []) ≡ false
    pub api_key_set : (c.api_key == []) ≡ false
    pub mode_kept : c.mode ≡ getenv (bytes "YIPYAP_MODE")
    pub mode_known : is_env_mode c.mode ≡ true
    pub filters_parsed :
        c.event_filters ≡ parse_event_filters (getenv (bytes "YIPYAP_EVENT_FILTER"))

  -- The values of the environment are in the configuration, with a sink, an API key and a known
  -- mode.
  pub load_config-IsLoaded :
      {c : Config} → load_config unmarshal parse_duration getenv ≡ ok c → IsLoaded c
  unfolding load_config
  load_config-IsLoaded h = ground arith

  pub load_config-health_addr :
      {c : Config}
      → load_config unmarshal parse_duration getenv ≡ ok c
      → c.health_addr ≡ default_str (getenv (bytes "YIPYAP_HEALTH_ADDR")) (bytes ":8080")
  unfolding load_config
  load_config-health_addr h = ground arith
