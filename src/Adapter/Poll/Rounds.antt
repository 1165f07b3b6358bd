-- ===== src/Adapter/Poll/Rounds.antt =====
-- When a round moves the cursor, and when `Run` panics.
use knative_source.Base.{◌≡◌, refl, Bool, true, false, not, ◌&&◌, Option, List, [], arith}
use knative_source.Base.{if◌then◌else◌, Str, str_eq, str_beq_iff, ◌==◌}
use knative_source.Base.Int.{pos, ltb_ℤ}
use knative_source.Base.Http.{UrlLib, Request, Reply}
use knative_source.Base.Result.{ok, err}
use knative_source.Adapter.Config.{Config}
use knative_source.Adapter.Event.{CloudEvents}
use knative_source.Adapter.Poll.{
  PollClient, new_poll_client, Payload, FetchError, emit_all, poll_round, poll_loop, poll_run,
  panicked, done,
}

module _ {Event : Type 0} {W : Type 0} (emit : Event → W → Bool × W)
    (write_cursor : Str → W → W) where
  -- The cursor of the next round is that of the answer exactly when every event was emitted and the
  -- answer names one. The cursor is written exactly when it then differs from the old one; nothing
  -- but the emissions, up to the first that fails, and this write changes the world.
  pub poll_round_lem :
      (next : Str) (evs : List Event) (cursor : Str) (w : W)
      → let (all_ok, w') = emit_all emit evs w in
        let moves = all_ok && not (next == []) in
        poll_round emit write_cursor (ok (next, evs)) cursor w ≡ (
          if moves then next else cursor,
          if moves && not (next == cursor) then write_cursor next w' else w',
        )
  unfolding poll_round
  poll_round_lem next evs cursor w = ground (arith, str_beq_iff next cursor)

  -- A failed fetch changes nothing.
  poll_round_failed :
      (e : FetchError) (cursor : Str) (w : W)
      → poll_round emit write_cursor (err e) cursor w ≡ (cursor, w)
  unfolding poll_round
  poll_round_failed e cursor w = refl

-- A client as `NewPollClient` makes it has a positive interval, whatever is configured.
pub new_poll_client-interval : (cfg : Config) → ltb_ℤ (pos 0) (new_poll_client cfg).interval ≡ true
unfolding new_poll_client
new_poll_client-interval cfg = ground arith

module _ (net : UrlLib) (ce : CloudEvents) (decode_payload : Str → Option Payload) {W : Type 0}
    (emit : ce.Event → W → Bool × W) (write_cursor : Str → W → W) where
  -- With an interval that is not positive `Run` panics, before it polls at all.
  pub poll_run_panics :
      (p : PollClient) (read_cursor : W → Str) (ticks : List (Request → Reply)) (w : W)
      → ltb_ℤ (pos 0) p.interval ≡ false
      → poll_run net ce decode_payload emit write_cursor p read_cursor ticks w ≡ panicked
  unfolding poll_run
  poll_run_panics p read_cursor ticks w h = rw h

  -- With a positive interval it polls until the context ends.
  pub poll_run_polls :
      (p : PollClient) (read_cursor : W → Str) (ticks : List (Request → Reply)) (w : W)
      → ltb_ℤ (pos 0) p.interval ≡ true
      → poll_run net ce decode_payload emit write_cursor p read_cursor ticks w ≡ (
          let (cursor, w') =
            poll_loop net ce decode_payload emit write_cursor p ticks (read_cursor w) w in
          done cursor w')
  unfolding poll_run
  poll_run_polls p read_cursor ticks w h = rw h
