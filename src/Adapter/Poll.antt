-- ===== src/Adapter/Poll.antt =====
-- cmd/receive-adapter/source/poll.go. The cursor file is in Poll/Cursor.
pub mod Cursor
pub mod Query
pub mod Delivery
pub mod Rounds
use knative_source.Base.{
  ℕ, ◌*◌, ◌^◌, Bool, true, false, not, ◌&&◌, Option, none, some, List, [], ◌∷◌, ◌++◌, take, nat_beq,
}
use knative_source.Base.{if◌then◌else◌, Str, str_eq, ◌==◌}
use knative_source.Base.Bytes.{bytes}
use knative_source.Base.Duration.{Duration, second}
use knative_source.Base.Http.{
  UrlLib, Url, Values, Request, Reply, transport_error, response, add_filters, query_set,
}
use knative_source.Base.Http.Header.{header_set}
use knative_source.Base.Int.{pos, ltb_ℤ}
use knative_source.Base.Result.{Result, ok, err}
use knative_source.Adapter.Config.{Config}
use knative_source.Adapter.Event.{CloudEvents}

pub record PollClient : Type 0 where
  pub base_url : Str
  pub api_key : Str
  pub filters : List Str
  pub interval : Duration
  pub cursor_path : Str

-- `interval <= 0` is the negation of `0 < interval`.
unfoldable pub new_poll_client : Config → PollClient
new_poll_client cfg = record {
  base_url = cfg.base_url;
  api_key = cfg.api_key;
  filters = cfg.event_filters;
  interval = if not (ltb_ℤ (pos 0) cfg.poll_interval) then pos (5 * second) else cfg.poll_interval;
  cursor_path = cfg.cursor_path;
}

-- The errors of `fetch`.
pub data FetchError : Type 0 where
  bad_base_url : FetchError
  bad_request : FetchError
  http_failed : FetchError
  bad_status : ℕ → Str → FetchError
  bad_payload : FetchError

-- The decoded response: the raw envelopes and the next cursor.
pub record Payload : Type 0 where
  pub events : List Str
  pub next_cursor : Str

unfoldable pub poll_query : PollClient → Str → Values → Values
poll_query p cursor q =
    let q' = add_filters p.filters q in
    if not (cursor == []) then query_set (bytes "since") cursor q' else q'

poll_request : PollClient → Str → Request
poll_request p url = record {
  method = bytes "GET";
  url = url;
  header =
      header_set (bytes "Accept") (bytes "application/json")
        (header_set (bytes "Authorization") (bytes "Bearer " ++ p.api_key) []);
  body = [];
}

-- The URL of a poll, with path and query.
unfoldable pub poll_url : UrlLib → PollClient → Str → Option Str
unfolding poll_query
poll_url net p cursor = elim (net.parse_url p.base_url) [
  | none ↦ none
  | some u ↦
      let u' = record u { path = net.path_join u.path (bytes "/api/v1/cloudevents/poll") } in
      some
        (net.url_string (record u' { raw_query = net.encode (poll_query p cursor (net.query u')) }))
]

module _ (ce : CloudEvents) (decode_payload : Str → Option Payload) where
  open ce use {Event}

  -- Malformed envelopes are skipped.
  decode_events : List Str → List Event
  decode_events [] = []
  decode_events (raw ∷ raws) =
      let rest = decode_events raws in elim (ce.unmarshal raw) [ none ↦ rest | some ev ↦ ev ∷ rest ]

  decode_reply : Reply → Result FetchError (Str × List Event)
  unfolding decode_events
  decode_reply transport_error = err http_failed
  decode_reply (response status body) =
      if not (nat_beq status 200)
      then err (bad_status status (take (2 ^ 16) body))
      else elim (decode_payload body) [
        | none ↦ err bad_payload
        | some p ↦ ok (p.next_cursor, decode_events p.events)
      ]

  unfoldable pub fetch :
      UrlLib → PollClient → (Request → Reply) → Str → Result FetchError (Str × List Event)
  unfolding poll_url decode_reply poll_request header_set
  fetch net p client_do cursor = elim (poll_url net p cursor) [
    | none ↦ err bad_base_url
    | some url ↦
        if net.is_requestable url
        then decode_reply (client_do (poll_request p url))
        else err bad_request
  ]

-- The loop over the events in `Run`, which stops at the first failure. A world `W` changes where an
-- event is emitted; the Boolean says that the emission gave a nil error.
unfoldable pub emit_all :
    {Event : Type 0} {W : Type 0} → (Event → W → Bool × W) → List Event → W → Bool × W
emit_all emit [] w = (true, w)
emit_all emit (ev ∷ evs) w =
    let (sent, w') = emit ev w in if sent then emit_all emit evs w' else (false, w')

-- One round of that loop, behind the fetch. The world changes also where the cursor is written.
module _ {Event : Type 0} {W : Type 0} (emit : Event → W → Bool × W)
    (write_cursor : Str → W → W) where
  -- The body of the loop in `Run`, from the result of the fetch.
  unfoldable pub poll_round : Result FetchError (Str × List Event) → Str → W → Str × W
  unfolding emit_all
  poll_round (err _) cursor w = (cursor, w)
  poll_round (ok (next, evs)) cursor w =
      let (all_ok, w') = emit_all emit evs w in
      if not all_ok
      then (cursor, w')
      else if not (next == []) && not (next == cursor)
      then (next, write_cursor next w')
      else (cursor, w')

-- How `Run` ends: by the panic of `time.NewTicker` on an interval that is not positive, or by the
-- end of the context, with the error that the context has.
pub data PollEnd (W : Type 0) : Type 0 where
  panicked : PollEnd W
  done : Str → W → PollEnd W

module _ (net : UrlLib) (ce : CloudEvents) (decode_payload : Str → Option Payload) {W : Type 0}
    (emit : ce.Event → W → Bool × W) (write_cursor : Str → W → W) where
  -- The ticks until the context ends, each with what the server answers then.
  unfoldable pub poll_loop : PollClient → List (Request → Reply) → Str → W → Str × W
  poll_loop p [] cursor w = (cursor, w)
  poll_loop p (client_do ∷ ticks) cursor w =
      let (cursor', w') =
        poll_round emit write_cursor (fetch ce decode_payload net p client_do cursor) cursor w in
      poll_loop p ticks cursor' w'

  -- `read_cursor` gives the cursor of the file; an error of it is ignored and reads as empty.
  unfoldable pub poll_run : PollClient → (W → Str) → List (Request → Reply) → W → PollEnd W
  unfolding poll_loop
  poll_run p read_cursor ticks w =
      if not (ltb_ℤ (pos 0) p.interval)
      then panicked
      else let (cursor, w') = poll_loop p ticks (read_cursor w) w in done cursor w'
