-- ===== src/Tests/Sink.antt =====
-- Runs of the theorems on the sink.
use knative_source.Base.{
  ◌≡◌, ◌≤◌, ◌<◌, ◌↔◌, inr, refl, ℕ, suc, ◌||◌, Option, none, some, [], ◌∷◌, arith, str_beq, leb,
  nat_beq, length, Str, str_eq,
}
use knative_source.Base.Bytes.{bytes}
use knative_source.Base.Http.{Request, Reply, response}
use knative_source.Adapter.Sink.{SendError, SinkClient, apply_overrides, build_binary_request, send}
use knative_source.Adapter.Sink.Status.{is_retryable, quoted, send-eq-none_iff, send_refused}
use knative_source.Tests.Fixtures.{net, ce, event}

-- A sink that answers with a status and counts the requests.
abbrev sink_answering : ℕ → Request → ℕ → Reply × ℕ
sink_answering status req n = (response status (bytes "sink says"), suc n)

abbrev client : SinkClient
client = record { sink = bytes "s"; overrides = (bytes "team", bytes "ops") ∷ [] }

abbrev sent : Option Request
sent =
    build_binary_request net ce client.sink
      (apply_overrides ce client.overrides (event (bytes "e1")))

send-eq-none_iff_example :
    ((send net ce (sink_answering 202) client (event (bytes "e1")) 0).0 ≡ none) ↔ (
      (req : Request) × (status : ℕ) × (body : Str) × (sent ≡ some req)
      × ((sink_answering 202 req 0).0 ≡ response status body)
      × (200 ≤ status)
      × (status < 300))
send-eq-none_iff_example =
    send-eq-none_iff net ce (sink_answering 202) client (event (bytes "e1")) 0

abbrev request_of_sent : Option Request → Request
request_of_sent none = record { method = []; url = []; header = []; body = [] }
request_of_sent (some req) = req

sent_built : sent ≡ some (request_of_sent sent)
unfolding build_binary_request apply_overrides str_beq
sent_built = refl

send_refused_example :
    (e : SendError) × ((send net ce (sink_answering 503) client (event (bytes "e1")) 0).0 ≡ some e)
    × (is_retryable e ≡ (nat_beq 503 408 || nat_beq 503 429 || leb 500 503))
    × (length (quoted e) ≤ 259)
send_refused_example =
    send_refused net ce (sink_answering 503) client (event (bytes "e1")) 0 sent_built refl
      (inr (omega arith))
