-- ===== src/Adapter/Sink.antt =====
-- cmd/receive-adapter/source/sink.go
pub mod Status
pub mod Headers
pub mod Names
pub mod Overrides
use knative_source.Base.{
  ℕ, ◌-◌, ◌≡◌, Bool, not, ◌||◌, ◌&&◌, Option, none, some, List, [], ◌∷◌, ◌++◌, take, length, ltb,
  leb, nat_beq,
}
use knative_source.Base.{if◌then◌else◌, Str, str_eq, ◌==◌}
use knative_source.Base.Bytes.{bytes, upper_byte}
use knative_source.Base.Dict.{Dict}
use knative_source.Base.Http.{UrlLib, Header, Request, Reply, transport_error, response}
use knative_source.Base.Http.Header.{header_set}
use knative_source.Base.Result.{Result, ok, err}
use knative_source.Adapter.Config.{Config}
use knative_source.Adapter.Event.{CloudEvents}

pub record SinkClient : Type 0 where
  pub sink : Str
  pub overrides : Dict Str Str

-- The HTTP client is the function that `send` posts with.
unfoldable pub new_sink_client : Config → SinkClient
new_sink_client cfg = record { sink = cfg.sink; overrides = cfg.ce_overrides }

-- The errors of `Send`, with what their texts carry.
pub data SendError : Type 0 where
  build_failed : SendError
  transport_retryable : SendError
  status_retryable : ℕ → Str → SendError
  status_permanent : ℕ → Str → SendError

-- A byte outside ASCII alone is no rune, and `strings.ToUpper` puts U+FFFD for it.
upper_first : ℕ → Str
upper_first c = if ltb c 128 then upper_byte c ∷ [] else 0xEF ∷ 0xBF ∷ 0xBD ∷ []

unfoldable pub canonical_header_key : Str → Str
unfolding upper_first
canonical_header_key [] = []
canonical_header_key (c ∷ k) = upper_first c ++ k

unfoldable pub truncate : Str → ℕ → Str
truncate b max = if leb (length b) max then b else take max b ++ bytes "..."

-- What becomes of a response: `none` is success.
classify : ℕ → Str → Option SendError
unfolding truncate
classify status body =
    if leb 200 status && ltb status 300
    then none
    else if nat_beq status 408 || nat_beq status 429 || leb 500 status
    then some (status_retryable status (truncate (take 4096 body) 256))
    else some (status_permanent status (truncate (take 4096 body) 256))

-- What `Send` returns for a reply; `none` is a nil error.
pub outcome : Reply → Option SendError
unfolding classify
outcome transport_error = some transport_retryable
outcome (response status body) = classify status body

-- The loop over the extensions.
set_extension_headers : Dict Str Str → Header → Header
unfolding canonical_header_key
set_extension_headers [] h = h
set_extension_headers ((k, v) ∷ exts) h =
    set_extension_headers exts (header_set (bytes "Ce-" ++ canonical_header_key k) v h)

module _ (ce : CloudEvents) where
  open ce use {Event}

  required_headers : Event → Header
  required_headers ev = header_set (bytes "Ce-Type") (ce.type_name ev) (
      header_set (bytes "Ce-Source") (ce.source ev) (
        header_set (bytes "Ce-Id") (ce.id ev)
          (header_set (bytes "Ce-Specversion") (ce.spec_version ev) [])))

  time_header : Event → Header → Header
  time_header ev h = elim (ce.time ev) [ none ↦ h | some t ↦ header_set (bytes "Ce-Time") t h ]

  subject_header : Event → Header → Header
  subject_header ev h =
      let sub = ce.subject ev in
      if not (sub == []) then header_set (bytes "Ce-Subject") sub h else h

  content_type : Event → Str
  content_type ev =
      let ct = ce.data_content_type ev in if ct == [] then bytes "application/json" else ct

  binary_headers : Event → Header
  unfolding set_extension_headers required_headers time_header subject_header content_type
  binary_headers ev = set_extension_headers (ce.extensions ev) (
      header_set (bytes "Content-Type") (content_type ev)
        (subject_header ev (time_header ev (required_headers ev))))

  body_of : Event → Str
  body_of ev = elim (ce.payload ev) [ none ↦ [] | some b ↦ b ]

  -- The loop over the overrides.
  unfoldable pub apply_overrides : Dict Str Str → Event → Event
  apply_overrides [] ev = ev
  apply_overrides ((k, v) ∷ m) ev = apply_overrides m (ce.set_extension k v ev)

module _ (net : UrlLib) (ce : CloudEvents) where
  open ce use {Event}

  unfoldable pub build_binary_request : Str → Event → Option Request
  unfolding binary_headers body_of
  build_binary_request sink_url ev = elim (net.parse_url sink_url) [
    | none ↦ none
    | some u ↦
        let url = net.url_string u in
        if net.is_requestable url
        then some (record {
          method = bytes "POST";
          url = url;
          header = binary_headers ce ev;
          body = body_of ce ev;
        })
        else none
  ]

  module _ {W : Type 0} (post : Request → W → Reply × W) where
    -- `none` is a nil error.
    unfoldable pub send : SinkClient → Event → W → Option SendError × W
    unfolding outcome apply_overrides build_binary_request
    send s ev w = elim (build_binary_request s.sink (apply_overrides ce s.overrides ev)) [
      | none ↦ (some build_failed, w)
      | some req ↦ let (reply, w') = post req w in (outcome reply, w')
    ]
