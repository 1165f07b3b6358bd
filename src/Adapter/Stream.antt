-- ===== src/Adapter/Stream.antt =====
-- cmd/receive-adapter/source/stream.go
pub mod Lines
pub mod Backoff
pub mod Keeps
use knative_source.Base.{
  ℕ, ◌*◌, ◌^◌, Bool, true, false, not, Option, none, some, List, [], ◌∷◌, ◌++◌, take, length, leb,
  ltb, nat_beq,
}
use knative_source.Base.{if◌then◌else◌, Str, str_eq, nat_eq, ◌==◌}
use knative_source.Base.Bytes.{bytes, split}
use knative_source.Base.Bytes.Trim.{trim_space}
use knative_source.Base.Duration.{millisecond, second}
use knative_source.Base.Http.{UrlLib, Url, Request, add_filters}
use knative_source.Base.Http.Header.{header_set}
use knative_source.Base.Result.{Result, ok, err}
use knative_source.Adapter.Config.{Config}
use knative_source.Adapter.Event.{CloudEvents}

pub record StreamClient : Type 0 where
  pub base_url : Str
  pub api_key : Str
  pub filters : List Str

unfoldable pub new_stream_client : Config → StreamClient
new_stream_client cfg = record {
  base_url = cfg.base_url;
  api_key = cfg.api_key;
  filters = cfg.event_filters;
}

-- In nanoseconds. The backoff stays so small that its doubling does not wrap around.
abbrev pub stream_backoff_initial : ℕ
stream_backoff_initial = 250 * millisecond

abbrev pub stream_backoff_cap : ℕ
stream_backoff_cap = 30 * second

-- The limit that the scanner's buffer is given.
abbrev pub max_line : ℕ
max_line = 4 * 1024 * 1024

pub data StreamError : Type 0 where
  bad_base_url : StreamError
  bad_request : StreamError
  http_failed : StreamError
  bad_status : ℕ → Str → StreamError
  line_too_long : StreamError
  read_failed : StreamError

-- What the server sends: the whole body up to where it ends, and whether a read error ended it.
pub data StreamReply : Type 0 where
  transport_error : StreamReply
  response : ℕ → Str → Bool → StreamReply

unfoldable pub stream_url : UrlLib → StreamClient → Option Str
stream_url net s = elim (net.parse_url s.base_url) [
  | none ↦ none
  | some u ↦
      let u' = record u { path = net.path_join u.path (bytes "/api/v1/cloudevents/stream") } in
      some (
        net.url_string (
          if ltb 0 (length s.filters)
          then record u' { raw_query = net.encode (add_filters s.filters (net.query u')) }
          else u'))
]

stream_request : StreamClient → Str → Request
stream_request s url = record {
  method = bytes "GET";
  url = url;
  header =
      header_set (bytes "Accept") (bytes "application/cloudevents-batch+json")
        (header_set (bytes "Authorization") (bytes "Bearer " ++ s.api_key) []);
  body = [];
}

-- The lines of `bufio.ScanLines`: what is behind the last newline is a line unless it is empty.
drop_last_empty : List Str → List Str
drop_last_empty [] = []
drop_last_empty (l ∷ []) = if l == [] then [] else l ∷ []
drop_last_empty (l ∷ m ∷ ls) = l ∷ drop_last_empty (m ∷ ls)

unfoldable pub drop_cr : Str → Str
drop_cr [] = []
drop_cr (c ∷ []) = if c == 13 then [] else c ∷ []
drop_cr (c ∷ d ∷ s) = c ∷ drop_cr (d ∷ s)

unfoldable pub raw_lines : Str → List Str
unfolding drop_last_empty
raw_lines body = drop_last_empty (split 10 body)

-- One connection: what the server answers, and whether the context is done when the connection
-- ends, or while the backoff is waited for.
pub record Attempt : Type 0 where
  pub client_do : Request → StreamReply
  pub cancelled : Bool
  pub cancelled_wait : Bool

abbrev pub next_backoff : ℕ → ℕ
next_backoff b = if ltb stream_backoff_cap (b * 2) then stream_backoff_cap else b * 2

module _ (ce : CloudEvents) {W : Type 0} (emit : ce.Event → W → Bool × W) where
  -- The body of the loop over the lines; the Boolean is `gotEvent`.
  unfoldable pub handle_line : Str → Bool → W → Bool × W
  unfolding drop_cr
  handle_line raw got w =
      let line = drop_cr raw in
      if trim_space line == []
      then (got, w)
      else elim (ce.unmarshal line) [ none ↦ (got, w) | some ev ↦ (true, (emit ev w).1) ]

  -- A line that does not fit the buffer stops the scanner.
  unfoldable pub scan : List Str → Bool → W → Bool × Bool × W
  unfolding handle_line
  scan [] got w = (got, false, w)
  scan (raw ∷ raws) got w =
      let (got', w') = handle_line raw got w in
      let rest = scan raws got' w' in if leb max_line (length raw) then (got, true, w) else rest

  pub stream_reply : StreamReply → W → Bool × Option StreamError × W
  unfolding raw_lines scan
  stream_reply transport_error w = (false, some http_failed, w)
  stream_reply (response status body broken) w =
      if not (nat_beq status 200)
      then (false, some (bad_status status (take (2 ^ 16) body)), w)
      else let (got, too_long, w') = scan (raw_lines body) false w in
        (
          got,
          if too_long then some line_too_long else if broken then some read_failed else none,
          w',
        )

module _ (net : UrlLib) (ce : CloudEvents) {W : Type 0} (emit : ce.Event → W → Bool × W) where
  -- `gotEvent`, the error, and the world behind.
  unfoldable pub stream_once :
      StreamClient → (Request → StreamReply) → W → Bool × Option StreamError × W
  unfolding stream_url stream_request stream_reply header_set
  stream_once s client_do w = elim (stream_url net s) [
    | none ↦ (false, some bad_base_url, w)
    | some url ↦
        if net.is_requestable url
        then stream_reply ce emit (client_do (stream_request s url)) w
        else (false, some bad_request, w)
  ]

  -- `stream`, the error of a connection alone.
  unfoldable pub stream : StreamClient → (Request → StreamReply) → W → Option StreamError × W
  unfolding stream_once
  stream s client_do w = let (_, e, w') = stream_once s client_do w in (e, w')

  -- The loop of `run`, with the waits that it begins. The list ends where the context does.
  unfoldable pub stream_loop : StreamClient → List Attempt → ℕ → W → List ℕ × W
  stream_loop s [] backoff w = ([], w)
  stream_loop s (a ∷ as') backoff w =
      let (got, _, w') = stream_once s a.client_do w in
      let wait = if got then stream_backoff_initial else backoff in
      let (waits, w'') = stream_loop s as' (next_backoff wait) w' in
      if a.cancelled
      then ([], w')
      else if a.cancelled_wait
      then (wait ∷ [], w')
      else (wait ∷ waits, w'')

  unfoldable pub stream_run : StreamClient → List Attempt → W → List ℕ × W
  unfolding stream_loop
  stream_run s as' w = stream_loop s as' stream_backoff_initial w
