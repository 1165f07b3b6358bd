-- ===== src/Tests/Server.antt =====
-- A server with one event, which keeps the promise of a poll endpoint.
use knative_source.Base.{
  ◌≡◌, refl, ◌∙◌, sym, ap, Option, some, List, [], ◌∷◌, ◌++◌, Str, str_eq, str_beq, ◌==◌,
  if◌then◌else◌, Bool-cases, inl, inr,
}
use knative_source.Base.Bytes.{bytes}
use knative_source.Base.Dict.{lookup}
use knative_source.Base.Duration.{Duration}
use knative_source.Base.Http.{Request, Reply, response, values_of}
use knative_source.Base.Result.{ok}
use knative_source.Adapter.Poll.{PollClient, Payload, fetch, poll_url, poll_query, new_poll_client}
use knative_source.Adapter.Poll.Delivery.{Extends}
use knative_source.Adapter.Poll.Query.{poll_query_lem}
use mathlib.Core.Path.{subst}
use knative_source.Tests.Fixtures.{net, ce, config, event, TestEvent, first_of}

abbrev pub last_cursor : Str
last_cursor = bytes "c1"

-- Nothing new behind the last cursor, and the one event elsewhere.
abbrev pub poll_server : Request → Reply
poll_server req = response 200 (if req.url == bytes "bc1" then bytes "none" else bytes "one")

abbrev pub decode_payload : Str → Option Payload
decode_payload body = some (record {
  events = if body == bytes "one" then bytes "e1" ∷ [] else [];
  next_cursor = last_cursor;
})

abbrev pub history : Str → List TestEvent
history c = if c == last_cursor then event (bytes "e1") ∷ [] else []

abbrev pub client : Duration → PollClient
client d = record (new_poll_client config) { interval = d }

since_of : (cursor : Str) → first_of (if cursor == [] then [] else cursor ∷ []) ≡ cursor
unfolding str_beq
since_of [] = refl
since_of (c ∷ s) = refl

since_lem :
    (d : Duration) (cursor : Str)
    → first_of (values_of (bytes "since") (poll_query (client d) cursor [])) ≡ cursor
unfolding values_of lookup
since_lem d cursor = ap first_of (poll_query_lem (client d) cursor []).1 ∙ since_of cursor

url_lem :
    (d : Duration) (cursor : Str) → poll_url net (client d) cursor ≡ some (bytes "b" ++ cursor)
unfolding poll_url new_poll_client str_beq
url_lem d cursor = ap (λ s. some (bytes "b" ++ s)) (since_lem d cursor)

new_events : Str → List TestEvent
new_events cursor = if cursor == last_cursor then [] else event (bytes "e1") ∷ []

fetch_lem :
    (d : Duration) (cursor : Str)
    → fetch ce decode_payload net (client d) poll_server cursor
      ≡ ok (last_cursor, new_events cursor)
unfolding fetch new_events str_beq
fetch_lem d cursor = elim (Bool-cases (cursor == last_cursor)) [
  | inl last ↦ rw (url_lem d cursor, fetch) (rw last refl)
  | inr other ↦ rw (url_lem d cursor, fetch) (rw other refl)
]

-- Whatever the interval and the cursor, the answer keeps the promise.
pub server-Extends :
    (d : Duration) (cursor : Str)
    → Extends history cursor (fetch ce decode_payload net (client d) poll_server cursor)
unfolding new_events str_beq
server-Extends d cursor =
    subst (λ r. Extends history cursor r) (sym (fetch_lem d cursor))
      (λ named. elim (Bool-cases (cursor == last_cursor)) [
        | inl last ↦ rw last refl
        | inr other ↦ rw other refl
      ])
