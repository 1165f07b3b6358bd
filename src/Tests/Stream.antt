-- ===== src/Tests/Stream.antt =====
-- Runs of the theorems on streaming.
use knative_source.Base.{
  ℕ, suc, ◌≡◌, ◌++◌, Bool, true, false, not, ◌||◌, is_some, List, [], ◌∷◌, Str,
}
use knative_source.Base.Bytes.{bytes}
use knative_source.Adapter.Stream.{
  Attempt, response, raw_lines, stream_reply, stream_run, new_stream_client,
}
use knative_source.Adapter.Stream.Lines.{
  fitting, has_long, line_events, emit_each, is_empty, stream_reply-ok,
}
use knative_source.Adapter.Stream.Backoff.{expected_waits, gots, stream_run-waits}
use knative_source.Tests.Fixtures.{net, ce, config, TestEvent}

abbrev count : TestEvent → ℕ → Bool × ℕ
count ev n = (true, suc n)

abbrev body : Str
body = bytes "e1" ++ (10 ∷ bytes "bad" ++ (10 ∷ bytes "e2"))

stream_reply-ok_example :
    let evs = line_events ce (fitting (raw_lines body)) in
    let (got, e, w') = stream_reply ce count (response 200 body true) 0 in
    (got ≡ not (is_empty evs))
    × (is_some e ≡ (has_long (raw_lines body) || true))
    × (w' ≡ emit_each count evs 0)
stream_reply-ok_example = stream_reply-ok ce count body true 0

abbrev attempt : Str → Attempt
attempt b = record {
  client_do = λ req. response 200 b false;
  cancelled = false;
  cancelled_wait = false;
}

abbrev attempts : List Attempt
attempts = attempt [] ∷ attempt body ∷ attempt [] ∷ []

stream_run-waits_example :
    (stream_run net ce count (new_stream_client config) attempts 0).0
    ≡ expected_waits (gots net ce count (new_stream_client config) attempts 0) 0
stream_run-waits_example = stream_run-waits net ce count (new_stream_client config) attempts 0
