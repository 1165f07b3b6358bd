-- ===== src/Adapter/Run/Coverage.antt =====
-- At-least-once delivery over a whole run of the adapter, in either mode.
use knative_source.Base.{inl, inr, Option, List, [], ◌∷◌, All, Str, str_eq, ◌==◌, Bool-cases}
use knative_source.Base.Bytes.{bytes}
use knative_source.Base.Duration.{Duration}
use knative_source.Base.Int.{pos, ltb_ℤ}
use knative_source.Base.Http.{UrlLib, Request}
use knative_source.Base.Result.{Result, ok, err}
use knative_source.Adapter.Config.{Config}
use knative_source.Adapter.Event.{CloudEvents}
use knative_source.Adapter.Mode.{ModeResolution, resolve_mode}
use knative_source.Adapter.Poll.{Payload, PollClient, new_poll_client, fetch}
use knative_source.Adapter.Poll.Delivery.{Extends, poll_loop-Covered, AllSeen-emit}
use knative_source.Adapter.Poll.Rounds.{poll_run_polls, poll_run_panics}
use knative_source.Adapter.Stream.{Attempt, new_stream_client}
use knative_source.Adapter.Stream.Keeps.{stream_run_keeps}
use knative_source.Adapter.Run.{
  Iteration, RunEnd, World, emit, run, run_session, poll_session, stream_session, iterate,
}
use knative_source.Adapter.Run.Honest.{IsHonest, Sent, emit_stored, emit-IsSink}

module _ (net : UrlLib) (ce : CloudEvents) (decode_payload : Str → Option Payload) (w : World)
    (cfg : Config) (Posted : Request → w.State → Type 0)
    (honest : IsHonest w cfg.cursor_path Posted) (history : Str → List ce.Event) where
  open w use {State}

  abbrev stored : State → Str
  stored = w.read_cursor cfg.cursor_path

  -- All events that the stored cursor stands for have been accepted by the sink.
  abbrev pub IsCoveredState : State → Type 0
  IsCoveredState s = All (λ ev. Sent net ce w cfg Posted honest ev s) (history (stored s))

  abbrev write : Str → State → State
  write = w.write_cursor cfg.cursor_path

  abbrev client : Duration → PollClient
  client d = record (new_poll_client cfg) { interval = d }

  -- The poll endpoint keeps its promise in an iteration: the next cursor of an answer stands for
  -- what the last one stands for, and for the events of the answer.
  abbrev pub IsFaithful : Iteration → Type 0
  IsFaithful it =
      (d : Duration)
      → All
          (λ client_do.
            (cursor : Str)
            → Extends history cursor (fetch ce decode_payload net (client d) client_do cursor))
          it.ticks

  emit_covered :
      (ev : ce.Event) (s : State) → IsCoveredState s → IsCoveredState (emit net ce w cfg ev s).1
  emit_covered ev s h = rw (emit_stored net ce w cfg Posted honest ev s) (
      AllSeen-emit (emit net ce w cfg) (w.write_cursor cfg.cursor_path)
        (Sent net ce w cfg Posted honest) stored (emit-IsSink net ce w cfg Posted honest)
        (history (stored s)) ev s h)

  poll_session_covered :
      (res : ModeResolution) (it : Iteration) (s : State)
      → IsFaithful it
      → IsCoveredState s
      → IsCoveredState (poll_session net ce decode_payload w cfg res it.ticks s).1
  unfolding poll_session new_poll_client
  poll_session_covered res it s f h = elim (Bool-cases (ltb_ℤ (pos 0) res.poll_interval)) [
    | inr zero ↦
        rw
          (
            poll_run_panics net ce decode_payload (emit net ce w cfg) write
                (client res.poll_interval) stored it.ticks s zero,
            poll_session,
          )
          h
    | inl positive ↦
        rw
          (
            poll_run_polls net ce decode_payload (emit net ce w cfg) write
                (client res.poll_interval) stored it.ticks s positive,
            poll_session,
          )
          (poll_loop-Covered net ce decode_payload (emit net ce w cfg) write
            (Sent net ce w cfg Posted honest) stored (emit-IsSink net ce w cfg Posted honest)
            (client res.poll_interval) history it.ticks (stored s) s (f res.poll_interval)
            (record { memory = h; disk = h })).disk
  ]

  stream_session_covered :
      (attempts : List Attempt) (s : State)
      → IsCoveredState s
      → IsCoveredState (stream_session net ce decode_payload w cfg attempts s).1
  unfolding stream_session
  stream_session_covered attempts s h =
      stream_run_keeps ce (emit net ce w cfg) IsCoveredState emit_covered net
        (new_stream_client cfg) attempts s h

  run_session_covered :
      (res : ModeResolution) (it : Iteration) (s : State)
      → IsFaithful it
      → IsCoveredState s
      → IsCoveredState (run_session net ce decode_payload w cfg res it s).1
  unfolding run_session
  run_session_covered res it s f h = elim (Bool-cases (res.mode == bytes "poll")) [
    | inl poll ↦ rw poll (poll_session_covered res it s f h)
    | inr other ↦ elim (Bool-cases (res.mode == bytes "stream")) [
      | inl stream ↦ rw (other, stream) (stream_session_covered it.attempts s h)
      | inr neither ↦ rw (other, neither) h
    ]
  ]

  iterate_covered :
      (rest : State → RunEnd State) (it : Iteration) (s : State) (r : Result Str ModeResolution)
      → IsFaithful it
      → ((s' : State) → IsCoveredState s' → IsCoveredState (rest s').world)
      → IsCoveredState s
      → IsCoveredState (iterate net ce decode_payload w rest cfg it s r).world
  unfolding iterate
  iterate_covered rest it s (err e) f later h = elim (Bool-cases it.cancelled_wait) [
    | inl c ↦ rw c h
    | inr c ↦ rw c (later s h)
  ]
  iterate_covered rest it s (ok res) f later h =
      let h' = run_session_covered res it s f h in
      elim (Bool-cases (run_session net ce decode_payload w cfg res it s).0) [
        | inl dead ↦ rw dead h'
        | inr alive ↦ rw alive (later (run_session net ce decode_payload w cfg res it s).1 h')
      ]

  -- At-least-once delivery of the whole adapter. If the sink has accepted the request for every
  -- event that the cursor in the file stands for, then this still holds after any run of `Run`: any
  -- mix of poll and stream sessions, of failed fetches, refused events and failed writes. It rests
  -- on an honest sink and disk and on a faithful poll endpoint.
  pub run_covered :
      (its : List Iteration) (s : State)
      → All IsFaithful its
      → IsCoveredState s
      → IsCoveredState (run net ce decode_payload w cfg its s).world
  unfolding run
  run_covered [] s f h = h
  run_covered (it ∷ its) s f h =
      iterate_covered (run net ce decode_payload w cfg its) it s (resolve_mode net it.hints cfg) f.0
        (λ s' h'. run_covered its s' f.1 h') h
