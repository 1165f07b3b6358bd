-- ===== src/Adapter/Config/Interval.antt =====
-- The poll interval of a loaded configuration.
use knative_source.Base.{◌≡◌, true, Option, some, Str, str_eq, arith}
use knative_source.Base.Bytes.{bytes}
use knative_source.Base.Duration.{Duration}
use knative_source.Base.Int.{pos, ltb_ℤ}
use knative_source.Base.Result.{ok}
use knative_source.Adapter.Config.{Config, CeOverridesEnvelope, load_config, load_interval}

-- Each interval that an operator writes is positive.
abbrev pub IsPositive : (Str → Option Duration) → Type 0
IsPositive parse_duration =
    (raw : Str) (d : Duration) → parse_duration raw ≡ some d → ltb_ℤ (pos 0) d ≡ true

module _ (unmarshal : Str → Option CeOverridesEnvelope)
    (parse_duration : Str → Option Duration) where
  load_interval-positive :
      (raw : Str) {d : Duration}
      → IsPositive parse_duration
      → load_interval unmarshal parse_duration raw ≡ ok d
      → ltb_ℤ (pos 0) d ≡ true
  unfolding load_interval
  load_interval-positive raw {d} positive h = ground (arith, positive raw d)

  load_config-interval :
      (getenv : Str → Str) {cfg : Config}
      → load_config unmarshal parse_duration getenv ≡ ok cfg
      → load_interval unmarshal parse_duration (getenv (bytes "YIPYAP_POLL_INTERVAL"))
        ≡ ok cfg.poll_interval
  unfolding load_config
  load_config-interval getenv h = ground arith

  pub load_config-positive :
      (getenv : Str → Str) {cfg : Config}
      → IsPositive parse_duration
      → load_config unmarshal parse_duration getenv ≡ ok cfg
      → ltb_ℤ (pos 0) cfg.poll_interval ≡ true
  load_config-positive getenv positive h =
      load_interval-positive (getenv (bytes "YIPYAP_POLL_INTERVAL")) positive
        (load_config-interval getenv h)
