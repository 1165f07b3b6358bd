-- ===== src/Adapter/Mode/Known.antt =====
-- Which modes come out of the resolution, and which configurations it refuses.
use knative_source.Base.{◌≡◌, refl, ◌⊎◌, true, [], arith}
use knative_source.Base.{Str, str_eq, str_beq, str_beq_iff}
use knative_source.Base.Bytes.{bytes, to_lower}
use knative_source.Base.Bytes.Trim.{trim_space}
use knative_source.Base.Http.{UrlLib}
use knative_source.Base.Result.{ok, is_ok}
use knative_source.Adapter.Config.{Config}
use knative_source.Adapter.Config.Laws.{is_env_mode}
use knative_source.Adapter.Mode.{
  HintSource, ModeResolution, resolve_mode, resolution_from_hint, SourceConfigHint,
  resolve_from_server, resolve_from_cr,
}

lower_trim_empty : to_lower (trim_space []) ≡ []
unfolding to_lower trim_space
lower_trim_empty = refl

lower_trim_poll : to_lower (trim_space (bytes "poll")) ≡ bytes "poll"
unfolding to_lower trim_space
lower_trim_poll = refl

lower_trim_stream : to_lower (trim_space (bytes "stream")) ≡ bytes "stream"
unfolding to_lower trim_space
lower_trim_stream = refl

abbrev pub IsTransport : Str → Type 0
IsTransport m = (m ≡ bytes "poll") ⊎ (m ≡ bytes "stream")

resolution_from_hint-IsTransport :
    (h : SourceConfigHint) (cfg : Config) → IsTransport (resolution_from_hint h cfg).mode
unfolding resolution_from_hint
resolution_from_hint-IsTransport h cfg = ground arith

module _ (net : UrlLib) (env : HintSource) (cfg : Config) where
  resolve_from_server-IsTransport : IsTransport (resolve_from_server net env cfg).mode
  unfolding resolve_from_server
  resolve_from_server-IsTransport = grind (arith, resolution_from_hint-IsTransport)

  resolve_from_cr-IsTransport : IsTransport (resolve_from_cr net env cfg).mode
  unfolding resolve_from_cr
  resolve_from_cr-IsTransport = grind (arith, resolve_from_server-IsTransport, str_beq_iff)

  -- A resolution names "poll" or "stream", whatever the file and the server say.
  pub resolve_mode-IsTransport :
      {r : ModeResolution} → resolve_mode net env cfg ≡ ok r → IsTransport r.mode
  unfolding resolve_mode
  resolve_mode-IsTransport h = ground (arith, resolve_from_cr-IsTransport)

  -- A configuration whose mode is empty, "poll" or "stream", as a loaded one is, is never refused.
  pub resolve_mode_loaded : is_env_mode cfg.mode ≡ true → is_ok (resolve_mode net env cfg) ≡ true
  unfolding resolve_mode str_beq
  resolve_mode_loaded h = ground (
    arith,
    str_beq_iff cfg.mode [],
    str_beq_iff cfg.mode (bytes "poll"),
    str_beq_iff cfg.mode (bytes "stream"),
    lower_trim_empty,
    lower_trim_poll,
    lower_trim_stream,
  )
