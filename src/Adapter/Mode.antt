-- ===== src/Adapter/Mode.antt =====
-- cmd/receive-adapter/source/mode.go
pub mod Hint
pub mod Precedence
pub mod Known
use knative_source.Base.{
  ℕ, ◌*◌, ◌^◌, Bool, ◌||◌, Option, none, some, List, [], ◌∷◌, ◌++◌, take, nat_beq, not,
}
use knative_source.Base.{if◌then◌else◌, Str, str_eq, ◌==◌}
use knative_source.Base.Bytes.{bytes, to_lower}
use knative_source.Base.Bytes.Trim.{trim_space}
use knative_source.Base.Duration.{Duration, minute, seconds}
use knative_source.Base.Http.{UrlLib, Url, Request, Reply, transport_error, response}
use knative_source.Base.Http.Header.{header_set}
use knative_source.Base.Int.{ℤ, pos, ltb_ℤ}
use knative_source.Base.Result.{Result, ok, err}
use knative_source.Adapter.Config.{Config}

pub record ModeResolution : Type 0 where
  pub mode : Str
  pub poll_interval : Duration
  pub refresh_after : Duration
  pub source : Str

abbrev pub default_refresh_after : Duration
default_refresh_after = pos (5 * minute)

-- `sourceConfigHint`: what encoding/json leaves in the three fields.
pub record SourceConfigHint : Type 0 where
  pub recommended_mode : Str
  pub poll_interval_seconds : ℤ
  pub refresh_after_seconds : ℤ

-- The errors of `fetchServerHint`.
pub data HintError : Type 0 where
  bad_base_url : HintError
  bad_request : HintError
  http_failed : HintError
  bad_status : ℕ → Str → HintError
  bad_hint : HintError

-- `os.ReadFile` (`none` is an error), `http.Client.Do`, and the decoding of a hint.
pub record HintSource : Type 0 where
  pub read_file : Str → Option Str
  pub client_do : Request → Reply
  pub decode_hint : Str → Option SourceConfigHint

hint_mode : Str → Str
hint_mode m = if to_lower (trim_space m) == bytes "stream" then bytes "stream" else bytes "poll"

hint_duration : ℤ → Duration → Duration
hint_duration n def = if ltb_ℤ (pos 0) n then seconds n else def

unfoldable pub resolution_from_hint : SourceConfigHint → Config → ModeResolution
unfolding hint_mode hint_duration
resolution_from_hint h cfg = record {
  mode = hint_mode h.recommended_mode;
  poll_interval = hint_duration h.poll_interval_seconds cfg.poll_interval;
  refresh_after = hint_duration h.refresh_after_seconds default_refresh_after;
  source = bytes "server";
}

module _ (net : UrlLib) (env : HintSource) where
  unfoldable pub read_cr_mode_file : Str → Option Str
  read_cr_mode_file p = elim (env.read_file p) [
    | none ↦ none
    | some b ↦ let s = to_lower (trim_space b) in if s == [] then none else some s
  ]

  decode_reply : Reply → Result HintError SourceConfigHint
  decode_reply transport_error = err http_failed
  decode_reply (response status body) =
      if not (nat_beq status 200)
      then err (bad_status status (take (2 ^ 16) body))
      else elim (env.decode_hint body) [ none ↦ err bad_hint | some h ↦ ok h ]

  hint_request : Str → Config → Request
  hint_request url cfg = record {
    method = bytes "GET";
    url = url;
    header =
        header_set (bytes "Accept") (bytes "application/json")
          (header_set (bytes "Authorization") (bytes "Bearer " ++ cfg.api_key) []);
    body = [];
  }

  unfoldable pub fetch_server_hint : Config → Result HintError SourceConfigHint
  unfolding decode_reply hint_request header_set
  fetch_server_hint cfg = elim (net.parse_url cfg.base_url) [
    | none ↦ err bad_base_url
    | some u ↦
        let url =
          net.url_string
            (record u { path = net.path_join u.path (bytes "/api/v1/knative/source-config") }) in
        if net.is_requestable url
        then decode_reply (env.client_do (hint_request url cfg))
        else err bad_request
  ]

  abbrev fixed : Str → Duration → Str → ModeResolution
  fixed mode interval source = record {
    mode = mode;
    poll_interval = interval;
    refresh_after = default_refresh_after;
    source = source;
  }

  -- Steps 3 and 4: the hint of the server, or what the program ships with.
  resolve_from_server : Config → ModeResolution
  resolve_from_server cfg = elim (fetch_server_hint cfg) [
    | ok hint ↦ resolution_from_hint hint cfg
    | err _ ↦ fixed (bytes "poll") cfg.poll_interval (bytes "default")
  ]

  abbrev cr_path : Config → Str
  cr_path cfg =
      if cfg.cr_mode_file_path == [] then bytes "/etc/yipyap/source-mode" else cfg.cr_mode_file_path

  -- Step 2. "auto" and unknown content fall through alike; only a log line tells them apart.
  resolve_from_cr : Config → ModeResolution
  unfolding read_cr_mode_file
  resolve_from_cr cfg = elim (read_cr_mode_file (cr_path cfg)) [
    | none ↦ resolve_from_server cfg
    | some m ↦
        if m == bytes "poll" || m == bytes "stream"
        then fixed m cfg.poll_interval (bytes "cr")
        else resolve_from_server cfg
  ]

  -- The error is that of an invalid YIPYAP_MODE, and carries it.
  unfoldable pub resolve_mode : Config → Result Str ModeResolution
  unfolding resolve_from_cr resolve_from_server
  resolve_mode cfg =
      let m = to_lower (trim_space cfg.mode) in
      if m == bytes "poll"
      then ok (fixed (bytes "poll") cfg.poll_interval (bytes "env"))
      else if m == bytes "stream"
      then ok (fixed (bytes "stream") (pos 0) (bytes "env"))
      else if m == [] || m == bytes "auto"
      then ok (resolve_from_cr cfg)
      else err cfg.mode
