-- ===== src/Adapter/Mode/Precedence.antt =====
-- The precedence chain of `ResolveMode`, as a list of opinions of which the first one counts.
use knative_source.Base.{◌≡◌, Bool, ◌||◌, Option, none, some, List, [], ◌∷◌, arith}
use knative_source.Base.{Str, str_eq, ◌==◌, if◌then◌else◌}
use knative_source.Base.Bytes.{bytes, to_lower}
use knative_source.Base.Bytes.Trim.{trim_space}
use knative_source.Base.Duration.{Duration}
use knative_source.Base.Http.{UrlLib}
use knative_source.Base.Int.{pos}
use knative_source.Base.Result.{ok, err}
use knative_source.Adapter.Config.{Config}
use knative_source.Adapter.Mode.{
  HintSource, ModeResolution, default_refresh_after, fetch_server_hint, read_cr_mode_file,
  resolve_mode, resolution_from_hint,
}

-- The first layer that has an opinion, or else the default.
pub first_opinion : List (Option ModeResolution) → ModeResolution → ModeResolution
first_opinion [] def = def
first_opinion (none ∷ rest) def = first_opinion rest def
first_opinion (some r ∷ rest) def = r

abbrev says : Str → Duration → Str → ModeResolution
says mode interval source = record {
  mode = mode;
  poll_interval = interval;
  refresh_after = default_refresh_after;
  source = source;
}

abbrev word : Config → Str
word cfg = to_lower (trim_space cfg.mode)

pub env_opinion : Config → Option ModeResolution
env_opinion cfg =
    if word cfg == bytes "poll"
    then some (says (bytes "poll") cfg.poll_interval (bytes "env"))
    else if word cfg == bytes "stream"
    then some (says (bytes "stream") (pos 0) (bytes "env"))
    else none

module _ (net : UrlLib) (env : HintSource) where
  pub cr_opinion : Config → Option ModeResolution
  cr_opinion cfg =
      elim (read_cr_mode_file net env (
        if cfg.cr_mode_file_path == []
        then bytes "/etc/yipyap/source-mode"
        else cfg.cr_mode_file_path)) [
          | none ↦ none
          | some m ↦
              if m == bytes "poll" || m == bytes "stream"
              then some (says m cfg.poll_interval (bytes "cr"))
              else none
        ]

  pub server_opinion : Config → Option ModeResolution
  server_opinion cfg = elim (fetch_server_hint net env cfg) [
    | ok hint ↦ some (resolution_from_hint hint cfg)
    | err _ ↦ none
  ]

  -- The mode word of the configuration, in any case and with white space around it.
  pub is_mode_word : Str → Bool
  is_mode_word m = m == bytes "poll" || m == bytes "stream" || m == [] || m == bytes "auto"

  -- A valid mode word resolves to the first opinion among the environment, the file and the
  -- server, and to polling at the configured interval if none has one. Any other word is an error.
  pub resolve_mode-eq-first_opinion :
      (cfg : Config)
      → resolve_mode net env cfg ≡ (
          if is_mode_word (word cfg)
          then ok (
              first_opinion
                (env_opinion cfg ∷ cr_opinion cfg ∷ server_opinion cfg ∷ [])
                (says (bytes "poll") cfg.poll_interval (bytes "default")))
          else err cfg.mode)
  unfolding resolve_mode first_opinion env_opinion cr_opinion server_opinion is_mode_word
  resolve_mode-eq-first_opinion cfg = ground arith
