-- ===== src/Adapter/Mode/Hint.antt =====
-- What the server's hint can do to a session's durations.
use knative_source.Base.{ℕ, ◌≡◌, true, false, arith}
use knative_source.Base.Duration.{seconds}
use knative_source.Base.Int.{pos, ltb_ℤ}
use knative_source.Adapter.Config.{Config}
use knative_source.Base.{some, Option-cases, Bool-cases, inl, inr, Str, str_eq}
use knative_source.Base.Bytes.{bytes}
use knative_source.Base.Http.{UrlLib, Reply, transport_error, response}
use knative_source.Base.Result.{ok, Result-cases}
use knative_source.Adapter.Mode.{
  HintSource, ModeResolution, SourceConfigHint, resolution_from_hint, fetch_server_hint,
  resolve_mode, resolve_from_cr, resolve_from_server, decode_reply, hint_request,
}

-- The largest number of seconds that a duration holds.
abbrev pub max_seconds : ℕ
max_seconds = 9223372036

-- A hint of at most `max_seconds` seconds and a positive configured interval give a positive one.
pub resolution_from_hint-positive :
    (h : SourceConfigHint) (cfg : Config)
    → ltb_ℤ (pos 0) cfg.poll_interval ≡ true
    → ltb_ℤ (pos max_seconds) h.poll_interval_seconds ≡ false
    → ltb_ℤ (pos 0) (resolution_from_hint h cfg).poll_interval ≡ true
unfolding resolution_from_hint seconds
resolution_from_hint-positive h cfg p q = ground arith

-- The hints that fit: no poll interval above `max_seconds`.
abbrev pub IsBounded : HintSource → Type 0
IsBounded env =
    (body : Str) (h : SourceConfigHint)
    → env.decode_hint body ≡ some h
    → ltb_ℤ (pos max_seconds) h.poll_interval_seconds ≡ false

module _ (net : UrlLib) (env : HintSource) (cfg : Config) where
  decode_reply_decoded :
      (reply : Reply) {h : SourceConfigHint}
      → decode_reply net env reply ≡ ok h
      → (body : Str) × (env.decode_hint body ≡ some h)
  unfolding decode_reply
  decode_reply_decoded transport_error e = cc
  decode_reply_decoded (response status body) e = (body, ground arith)

  -- A hint that was fetched was decoded from a body.
  fetch_server_hint_decoded :
      {h : SourceConfigHint}
      → fetch_server_hint net env cfg ≡ ok h
      → (body : Str) × (env.decode_hint body ≡ some h)
  unfolding fetch_server_hint
  fetch_server_hint_decoded e = elim (Option-cases (net.parse_url cfg.base_url)) [
    | inl bad ↦ absurd (ground arith)
    | inr (u, good) ↦
        let url =
          net.url_string
            (record u { path = net.path_join u.path (bytes "/api/v1/knative/source-config") }) in
        elim (Bool-cases (net.is_requestable url)) [
          | inr refused ↦ absurd (ground arith)
          | inl accepted ↦
              decode_reply_decoded (env.client_do (hint_request net env url cfg)) (ground arith)
        ]
  ]

  module _ (positive : ltb_ℤ (pos 0) cfg.poll_interval ≡ true) (bounded : IsBounded env) where
    resolve_from_server-interval :
        ltb_ℤ (pos 0) (resolve_from_server net env cfg).poll_interval ≡ true
    unfolding resolve_from_server
    resolve_from_server-interval = elim (Result-cases (fetch_server_hint net env cfg)) [
      | inl (e, failed) ↦ rw (failed, resolve_from_server) positive
      | inr (h, fetched) ↦
          let (body, decoded) = fetch_server_hint_decoded fetched in
          rw (fetched, resolve_from_server)
            (resolution_from_hint-positive h cfg positive (bounded body h decoded))
    ]

    resolve_from_cr-interval : ltb_ℤ (pos 0) (resolve_from_cr net env cfg).poll_interval ≡ true
    unfolding resolve_from_cr
    resolve_from_cr-interval = ground (arith, resolve_from_server-interval)

    -- A poll session gets a positive interval, if the configured one is positive and the hints are
    -- bounded.
    pub resolve_mode-interval :
        {r : ModeResolution}
        → resolve_mode net env cfg ≡ ok r
        → r.mode ≡ bytes "poll"
        → ltb_ℤ (pos 0) r.poll_interval ≡ true
    unfolding resolve_mode
    resolve_mode-interval e m = ground (arith, resolve_from_cr-interval)
