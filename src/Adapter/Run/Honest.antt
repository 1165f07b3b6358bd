-- ===== src/Adapter/Run/Honest.antt =====
-- The adapter's sink as the readers see it: `emit` against an honest sink and cursor file.
use knative_source.Base.{
  ◌≡◌, ◌⊎◌, inl, inr, true, Option, none, some, arith, ◌≤◌, ◌<◌, ℕ, Str, str_eq, Option-cases,
}
use knative_source.Base.Http.{UrlLib, Request, response}
use knative_source.Adapter.Config.{Config}
use knative_source.Adapter.Event.{CloudEvents}
use knative_source.Adapter.Poll.Delivery.{IsSink}
use knative_source.Adapter.Sink.{new_sink_client, build_binary_request, apply_overrides, send}
use knative_source.Adapter.Sink.Status.{send-eq-none_iff, send_posted, send_unbuilt}
use knative_source.Adapter.Run.{World, emit}

-- What delivery assumes of the world: `Posted req s` says that the sink has accepted `req` before
-- the state `s`. An answer from 200 to 299 means that, and nothing takes it back; only a write
-- changes the cursor file, and it leaves the old cursor or the new one.
pub record IsHonest (w : World) (path : Str) (Posted : Request → w.State → Type 0) : Type 0 where
  pub post_accepts :
      (req : Request) (s : w.State) (status : ℕ) (body : Str)
      → (w.post req s).0 ≡ response status body
      → 200 ≤ status
      → status < 300
      → Posted req (w.post req s).1
  pub post_keeps : (req r : Request) (s : w.State) → Posted r s → Posted r (w.post req s).1
  pub post_stored :
      (req : Request) (s : w.State) → w.read_cursor path (w.post req s).1 ≡ w.read_cursor path s
  pub write_keeps :
      (c : Str) (r : Request) (s : w.State) → Posted r s → Posted r (w.write_cursor path c s)
  pub write_stored :
      (c : Str) (s : w.State)
      → (w.read_cursor path (w.write_cursor path c s) ≡ w.read_cursor path s)
        ⊎ (w.read_cursor path (w.write_cursor path c s) ≡ c)

module _ (net : UrlLib) (ce : CloudEvents) (w : World) (cfg : Config)
    (Posted : Request → w.State → Type 0) (honest : IsHonest w cfg.cursor_path Posted) where
  open w use {State}

  -- The request for an event, with the overrides applied, has been accepted by the sink.
  abbrev pub Sent : ce.Event → State → Type 0
  Sent ev s =
      (req : Request) × (build_binary_request net ce cfg.sink
          (apply_overrides ce cfg.ce_overrides ev)
        ≡ some req)
      × Posted req s

  abbrev request_of : ce.Event → Option Request
  request_of ev = build_binary_request net ce cfg.sink (apply_overrides ce cfg.ce_overrides ev)

  emit_posted :
      (ev : ce.Event) (s : State) {req : Request}
      → request_of ev ≡ some req
      → (emit net ce w cfg ev s).1 ≡ (w.post req s).1
  unfolding emit new_sink_client
  emit_posted ev s built = rw (send_posted net ce w.post (new_sink_client cfg) ev s built)

  emit_unbuilt : (ev : ce.Event) (s : State) → request_of ev ≡ none → (emit net ce w cfg ev s).1 ≡ s
  unfolding emit new_sink_client
  emit_unbuilt ev s bad = rw (send_unbuilt net ce w.post (new_sink_client cfg) ev s bad)

  emit_keeps : (ev e : ce.Event) (s : State) → Sent e s → Sent e (emit net ce w cfg ev s).1
  emit_keeps ev e s (req, built, posted) = elim (Option-cases (request_of ev)) [
    | inl bad ↦ rw (emit_unbuilt ev s bad) (req, built, posted)
    | inr (r, good) ↦ rw (emit_posted ev s good) (req, built, honest.post_keeps r req s posted)
  ]

  pub emit_stored :
      (ev : ce.Event) (s : State)
      → w.read_cursor cfg.cursor_path (emit net ce w cfg ev s).1 ≡ w.read_cursor cfg.cursor_path s
  emit_stored ev s = elim (Option-cases (request_of ev)) [
    | inl bad ↦ rw (emit_unbuilt ev s bad)
    | inr (r, good) ↦ rw (emit_posted ev s good) (honest.post_stored r s)
  ]

  emit_accepted :
      (ev : ce.Event) (s : State)
      → (emit net ce w cfg ev s).0 ≡ true
      → (send net ce w.post (new_sink_client cfg) ev s).0 ≡ none
  unfolding emit
  emit_accepted ev s h = ground arith

  emit_seen :
      (ev : ce.Event) (s : State)
      → (emit net ce w cfg ev s).0 ≡ true
      → Sent ev (emit net ce w cfg ev s).1
  unfolding new_sink_client
  emit_seen ev s h =
      let (req, status, body, built, reply, low, high) =
        (send-eq-none_iff net ce w.post (new_sink_client cfg) ev s).0 (emit_accepted ev s h) in
      rw (emit_posted ev s built) (req, built, honest.post_accepts req s status body reply low high)

  pub emit-IsSink :
      IsSink
        (emit net ce w cfg)
        (w.write_cursor cfg.cursor_path)
        Sent
        (w.read_cursor cfg.cursor_path)
  emit-IsSink = record {
    emit_seen = emit_seen;
    emit_keeps = emit_keeps;
    emit_stored = emit_stored;
    write_keeps = λ c e s (req, built, posted). (req, built, honest.write_keeps c req s posted);
    write_stored = honest.write_stored;
  }
