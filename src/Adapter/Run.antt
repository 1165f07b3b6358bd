-- ===== src/Adapter/Run.antt =====
-- cmd/receive-adapter/source/run.go
pub mod Sessions
pub mod Honest
pub mod Coverage
pub mod Disk
use knative_source.Base.{
  ℕ, ◌*◌, Bool, true, false, not, Option, none, some, List, [], ◌∷◌, if◌then◌else◌, Str, str_eq,
  ◌==◌,
}
use knative_source.Base.Bytes.{bytes}
use knative_source.Base.Duration.{Duration, minute, second}
use knative_source.Base.Http.{UrlLib, Request, Reply}
use knative_source.Base.Int.{pos, ltb_ℤ}
use knative_source.Base.Result.{Result, ok, err}
use knative_source.Adapter.Config.{Config}
use knative_source.Adapter.Event.{CloudEvents}
use knative_source.Adapter.Mode.{HintSource, ModeResolution, resolve_mode}
use knative_source.Adapter.Sink.{SinkClient, new_sink_client, SendError, send}
use knative_source.Adapter.Poll.{Payload, PollClient, new_poll_client, poll_run, PollEnd}
use knative_source.Adapter.Stream.{Attempt, new_stream_client, stream_run}

abbrev pub min_refresh_after : Duration
min_refresh_after = pos minute

abbrev pub resolve_err_backoff : Duration
resolve_err_backoff = pos (30 * second)

-- What one iteration of the loop meets: the sources of the resolution, whether the context ends
-- while a failed resolution is waited out, and what the server answers to either client.
pub record Iteration : Type 0 where
  pub hints : HintSource
  pub cancelled_wait : Bool
  pub ticks : List (Request → Reply)
  pub attempts : List Attempt

-- What the loop has done, for its log.
pub data Step : Type 0 where
  waited : Duration → Step
  session : ModeResolution → Duration → Step

-- How the loop ends: with the context, or by a panic.
pub record RunEnd (W : Type 0) : Type 0 where
  pub steps : List Step
  pub panicked : Bool
  pub world : W

unfoldable pub clamp_refresh : Duration → Duration
clamp_refresh refresh = if ltb_ℤ refresh min_refresh_after then min_refresh_after else refresh

abbrev pub is_nil : {A : Type 0} → Option A → Bool
is_nil none = true
is_nil (some a) = false

-- The world: the posts to the sink, and the cursor file at a path, whose read errors read as empty.
pub record World : Type 1 where
  pub State : Type 0
  pub post : Request → State → Reply × State
  pub read_cursor : Str → State → Str
  pub write_cursor : Str → Str → State → State

module _ (net : UrlLib) (ce : CloudEvents) (w : World) where
  open w use {State, post}

  -- The callback that both clients are given.
  unfoldable pub emit : Config → ce.Event → State → Bool × State
  emit cfg ev s = let (e, s') = send net ce post (new_sink_client cfg) ev s in (is_nil e, s')

module _ (net : UrlLib) (ce : CloudEvents) (decode_payload : Str → Option Payload) (w : World) where
  open w use {State}

  -- A poll session, under the interval of the resolution; the Boolean says that it panicked.
  poll_session : Config → ModeResolution → List (Request → Reply) → State → Bool × State
  poll_session cfg res ticks s =
      let p = record (new_poll_client cfg) { interval = res.poll_interval } in
      elim (poll_run net ce decode_payload (emit net ce w cfg) (w.write_cursor p.cursor_path) p
        (w.read_cursor p.cursor_path) ticks s) [
          | PollEnd.panicked ↦ (true, s)
          | PollEnd.done _ s' ↦ (false, s')
        ]

  stream_session : Config → List Attempt → State → Bool × State
  stream_session cfg attempts s =
      (false, (stream_run net ce (emit net ce w cfg) (new_stream_client cfg) attempts s).1)

  -- The `switch` on the mode.
  unfoldable pub run_session : Config → ModeResolution → Iteration → State → Bool × State
  unfolding poll_session stream_session
  run_session cfg res it s =
      if res.mode == bytes "poll"
      then poll_session cfg res it.ticks s
      else if res.mode == bytes "stream"
      then stream_session cfg it.attempts s
      else (false, s)

  abbrev log_step : {A : Type 0} → Step → RunEnd A → RunEnd A
  log_step st e = record e { steps = st ∷ e.steps }

  -- The body of the loop, from the result of the resolution and with the iterations that follow.
  iterate :
      (State → RunEnd State) → Config → Iteration → State → Result Str ModeResolution → RunEnd State
  iterate rest cfg it s (err _) =
      log_step (waited resolve_err_backoff)
        (if it.cancelled_wait then record { steps = []; panicked = false; world = s } else rest s)
  iterate rest cfg it s (ok res) =
      let (dead, s') = run_session cfg res it s in
      log_step (session res (clamp_refresh res.refresh_after))
        (if dead then record { steps = []; panicked = true; world = s' } else rest s')

  -- The list of iterations ends where the context does.
  unfoldable pub run : Config → List Iteration → State → RunEnd State
  unfolding iterate
  run cfg [] s = record { steps = []; panicked = false; world = s }
  run cfg (it ∷ its) s = iterate (run cfg its) cfg it s (resolve_mode net it.hints cfg)
