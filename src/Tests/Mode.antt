-- ===== src/Tests/Mode.antt =====
-- Runs of the theorems on the resolution of the mode.
use knative_source.Base.{◌≡◌, [], ◌∷◌, if◌then◌else◌}
use knative_source.Base.Bytes.{bytes, to_lower}
use knative_source.Base.Bytes.Trim.{trim_space}
use knative_source.Base.Result.{ok, err}
use knative_source.Adapter.Config.{Config}
use knative_source.Adapter.Mode.{default_refresh_after, resolve_mode}
use knative_source.Adapter.Mode.Precedence.{
  first_opinion, env_opinion, cr_opinion, server_opinion, is_mode_word,
  resolve_mode-eq-first_opinion,
}
use knative_source.Tests.Fixtures.{net, config, hints}

abbrev auto_config : Config
auto_config = record config { mode = bytes " Auto" }

resolve_mode-eq-first_opinion_example : resolve_mode net hints auto_config ≡ (
    if is_mode_word net hints (to_lower (trim_space auto_config.mode))
    then ok (
        first_opinion
          (env_opinion auto_config
            ∷ cr_opinion net hints auto_config
            ∷ server_opinion net hints auto_config
            ∷ [])
          (record {
            mode = bytes "poll";
            poll_interval = auto_config.poll_interval;
            refresh_after = default_refresh_after;
            source = bytes "default";
          }))
    else err auto_config.mode)
resolve_mode-eq-first_opinion_example = resolve_mode-eq-first_opinion net hints auto_config
