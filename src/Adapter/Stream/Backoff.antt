-- ===== src/Adapter/Stream/Backoff.antt =====
-- The waits between connections.
use knative_source.Base.{
  ℕ, suc, ◌*◌, ◌^◌, min, ◌≤◌, ◌≡◌, refl, Bool, true, false, List, [], ◌∷◌, arith,
}
use knative_source.Base.{if◌then◌else◌}
use native.Mathlib.Nat.{pow-suc}
use knative_source.Base.Http.{UrlLib}
use knative_source.Adapter.Event.{CloudEvents}
use knative_source.Adapter.Stream.{
  StreamClient, Attempt, stream_backoff_initial, stream_backoff_cap, next_backoff, stream_once,
  stream_loop, stream_run,
}

-- The wait behind `k` connections in a row that brought no event.
abbrev pub expected : ℕ → ℕ
expected k = min (stream_backoff_initial * 2 ^ k) stream_backoff_cap

next_backoff-expected : (k : ℕ) → next_backoff (expected k) ≡ expected (suc k)
next_backoff-expected k = ground (arith, pow-suc 2 k)

abbrev pub IsBackoff : ℕ → Type 0
IsBackoff b = (stream_backoff_initial ≤ b) × (b ≤ stream_backoff_cap)

next_backoff-IsBackoff : (b : ℕ) → IsBackoff b → IsBackoff (next_backoff b)
next_backoff-IsBackoff b h = ground arith

-- How many connections in a row brought no event, behind one more.
abbrev streak : Bool → ℕ → ℕ
streak got k = if got then 0 else k

wait-expected :
    (got : Bool) (k : ℕ)
    → (if got then stream_backoff_initial else expected k) ≡ expected (streak got k)
wait-expected true k = omega arith
wait-expected false k = refl

-- The waits by the connections that brought an event.
pub expected_waits : List Bool → ℕ → List ℕ
expected_waits [] k = []
expected_waits (got ∷ gots) k = expected (streak got k) ∷ expected_waits gots (suc (streak got k))

module _ (net : UrlLib) (ce : CloudEvents) {W : Type 0} (emit : ce.Event → W → Bool × W)
    (s : StreamClient) where
  -- What the connections report as `gotEvent`, as far as a wait follows them.
  pub gots : List Attempt → W → List Bool
  gots [] w = []
  gots (a ∷ as') w =
      let (got, _, w') = stream_once net ce emit s a.client_do w in
      let rest = gots as' w' in
      if a.cancelled then [] else if a.cancelled_wait then got ∷ [] else got ∷ rest

  stream_loop-waits :
      (as' : List Attempt) (k : ℕ) (w : W)
      → (stream_loop net ce emit s as' (expected k) w).0 ≡ expected_waits (gots as' w) k
  unfolding stream_loop gots expected_waits
  stream_loop-waits [] k w = refl
  stream_loop-waits (a ∷ as') k w =
      let (got, _, w') = stream_once net ce emit s a.client_do w in
      rw (wait-expected got k, next_backoff-expected (streak got k))
        (rw (stream_loop-waits as' (suc (streak got k)) w') (ground arith))

  -- The wait behind a connection is a quarter of a second, doubled for each connection before it that
  -- brought no event since the last one that brought one, and at most 30 seconds.
  pub stream_run-waits :
      (as' : List Attempt) (w : W)
      → (stream_run net ce emit s as' w).0 ≡ expected_waits (gots as' w) 0
  unfolding stream_run
  stream_run-waits as' w = stream_loop-waits as' 0 w
