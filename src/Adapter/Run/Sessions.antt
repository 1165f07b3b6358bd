-- ===== src/Adapter/Run/Sessions.antt =====
-- What every session of `Run` keeps to, and when `Run` panics.
use knative_source.Base.{
  ◌≡◌, refl, inl, inr, true, false, Option, List, [], ◌∷◌, All, arith, Str, str_eq, Bool-cases,
  str_beq, str_beq_iff,
}
use knative_source.Base.Duration.{Duration}
use knative_source.Base.Http.{UrlLib, Request, Reply}
use knative_source.Base.Int.{pos, ltb_ℤ}
use knative_source.Base.Result.{Result, ok, err}
use knative_source.Adapter.Config.{Config}
use knative_source.Adapter.Event.{CloudEvents}
use knative_source.Adapter.Mode.{ModeResolution, resolve_mode}
use knative_source.Base.Bytes.{bytes, to_lower}
use knative_source.Base.Bytes.Trim.{trim_space}
use knative_source.Adapter.Poll.{poll_run, new_poll_client}
use knative_source.Adapter.Poll.Rounds.{poll_run_polls}
use knative_source.Adapter.Mode.Hint.{IsBounded, resolve_mode-interval}
use knative_source.Adapter.Mode.Known.{IsTransport, resolve_mode-IsTransport}
use knative_source.Adapter.Poll.{Payload}
use knative_source.Adapter.Run.{
  min_refresh_after, Iteration, Step, waited, session, RunEnd, clamp_refresh, World, run,
  run_session, iterate, poll_session, emit,
}

-- A session runs one of the two transports, and is given at least a minute, or the time that was
-- asked for, whichever is longer.
abbrev pub IsSound : Step → Type 0
IsSound (waited d) = Unit {0}
IsSound (session res d) =
    IsTransport res.mode × (ltb_ℤ d min_refresh_after ≡ false) × (ltb_ℤ d res.refresh_after ≡ false)

clamp_refresh_bounds :
    (d : Duration)
    → (ltb_ℤ (clamp_refresh d) min_refresh_after ≡ false) × (ltb_ℤ (clamp_refresh d) d ≡ false)
unfolding clamp_refresh
clamp_refresh_bounds d = ground arith

module _ (net : UrlLib) (ce : CloudEvents) (decode_payload : Str → Option Payload) (w : World)
    (cfg : Config) where
  iterate-IsSound :
      (rest : w.State → RunEnd w.State) (it : Iteration) (s : w.State)
      (r : Result Str ModeResolution)
      → ((s' : w.State) → All IsSound (rest s').steps)
      → resolve_mode net it.hints cfg ≡ r
      → All IsSound (iterate net ce decode_payload w rest cfg it s r).steps
  unfolding iterate
  iterate-IsSound rest it s (err e) later r = elim (Bool-cases it.cancelled_wait) [
    | inl c ↦ rw c (tt, tt)
    | inr c ↦ rw c (tt, later s)
  ]
  iterate-IsSound rest it s (ok res) later r =
      let (floor, asked) = clamp_refresh_bounds res.refresh_after in
      elim (Bool-cases (run_session net ce decode_payload w cfg res it s).0) [
        | inl dead ↦ rw dead ((resolve_mode-IsTransport net it.hints cfg r, floor, asked), tt)
        | inr alive ↦ rw alive (
          (resolve_mode-IsTransport net it.hints cfg r, floor, asked),
          later (run_session net ce decode_payload w cfg res it s).1,
        )
      ]

  -- In every run, each session has the transport "poll" or "stream", and its window is neither
  -- below a minute nor below the refresh time of its resolution, whatever the hints say.
  pub run-IsSound :
      (its : List Iteration) (s : w.State)
      → All IsSound (run net ce decode_payload w cfg its s).steps
  unfolding run
  run-IsSound [] s = tt
  run-IsSound (it ∷ its) s =
      iterate-IsSound (run net ce decode_payload w cfg its) it s (resolve_mode net it.hints cfg)
        (run-IsSound its) refl

  -- Every iteration's hints are bounded.
  abbrev pub AreBounded : List Iteration → Type 0
  AreBounded = All (λ it. IsBounded it.hints)

  poll_session_safe :
      (res : ModeResolution) (ticks : List (Request → Reply)) (s : w.State)
      → ltb_ℤ (pos 0) res.poll_interval ≡ true
      → (poll_session net ce decode_payload w cfg res ticks s).0 ≡ false
  unfolding poll_session
  poll_session_safe res ticks s h =
      let p = record (new_poll_client cfg) { interval = res.poll_interval } in
      rw (
        poll_run_polls net ce decode_payload (emit net ce w cfg) (w.write_cursor p.cursor_path) p
            (w.read_cursor p.cursor_path) ticks s h,
        poll_session,
      )

  run_session_safe :
      (res : ModeResolution) (it : Iteration) (s : w.State)
      → (res.mode ≡ bytes "poll" → ltb_ℤ (pos 0) res.poll_interval ≡ true)
      → (run_session net ce decode_payload w cfg res it s).0 ≡ false
  unfolding run_session
  run_session_safe res it s h =
      ground (arith, str_beq_iff res.mode (bytes "poll"), poll_session_safe res it.ticks s)

  iterate_safe :
      (rest : w.State → RunEnd w.State) (it : Iteration) (s : w.State)
      (r : Result Str ModeResolution)
      → ltb_ℤ (pos 0) cfg.poll_interval ≡ true
      → IsBounded it.hints
      → ((s' : w.State) → (rest s').panicked ≡ false)
      → resolve_mode net it.hints cfg ≡ r
      → (iterate net ce decode_payload w rest cfg it s r).panicked ≡ false
  unfolding iterate
  iterate_safe rest it s (err e) p b later r = elim (Bool-cases it.cancelled_wait) [
    | inl c ↦ rw c
    | inr c ↦ rw c (later s)
  ]
  iterate_safe rest it s (ok res) p b later r =
      rw (run_session_safe res it s (resolve_mode-interval net it.hints cfg p b r))
        (later (run_session net ce decode_payload w cfg res it s).1)

  -- A positive configured interval and hints of at most `max_seconds` seconds keep `Run` from
  -- panicking, in every run.
  pub run_safe :
      (its : List Iteration) (s : w.State)
      → ltb_ℤ (pos 0) cfg.poll_interval ≡ true
      → AreBounded its
      → (run net ce decode_payload w cfg its s).panicked ≡ false
  unfolding run
  run_safe [] s p b = refl
  run_safe (it ∷ its) s p b =
      iterate_safe (run net ce decode_payload w cfg its) it s (resolve_mode net it.hints cfg) p b.0
        (λ s'. run_safe its s' p b.1) refl

  -- Mode "poll" and an interval that is not positive: `Run` panics in its first session, and the
  -- sink gets nothing, although `NewPollClient` has a default for such an interval.
  pub run_panics :
      (it : Iteration) (its : List Iteration) (s : w.State)
      → cfg.mode ≡ bytes "poll"
      → ltb_ℤ (pos 0) cfg.poll_interval ≡ false
      → let e = run net ce decode_payload w cfg (it ∷ its) s in (e.panicked ≡ true) × (e.world ≡ s)
  unfolding run run_session poll_run resolve_mode str_beq to_lower trim_space
  run_panics it its s m p = rw m (ground arith)
