-- ===== src/Adapter/Poll/Delivery.antt =====
-- At-least-once delivery of poll.go: what a cursor stands for has reached the sink.
use knative_source.Base.{
  ◌≡◌, refl, sym, ◌∙◌, ◌⊎◌, inl, inr, Bool, true, false, Option, List, [], ◌∷◌, ◌++◌,
}
use knative_source.Base.{All, All-append, Str, str_eq, ◌==◌, Bool-cases}
use mathlib.Core.Path.{subst}
use knative_source.Base.Http.{UrlLib, Request, Reply}
use knative_source.Base.Result.{Result, ok, err}
use knative_source.Adapter.Event.{CloudEvents}
use knative_source.Adapter.Poll.{
  PollClient, Payload, FetchError, fetch, emit_all, poll_round, poll_loop,
}

-- What the theorems assume of the sink and of the cursor file: `Seen ev w` says that the sink has
-- accepted `ev` in the world `w`, and `stored w` is what the cursor file reads as.
pub record IsSink {Event : Type 0} {W : Type 0} (emit : Event → W → Bool × W)
    (write_cursor : Str → W → W) (Seen : Event → W → Type 0) (stored : W → Str) : Type 0 where
  pub emit_seen : (ev : Event) (w : W) → (emit ev w).0 ≡ true → Seen ev (emit ev w).1
  pub emit_keeps : (ev e : Event) (w : W) → Seen e w → Seen e (emit ev w).1
  pub emit_stored : (ev : Event) (w : W) → stored (emit ev w).1 ≡ stored w
  pub write_keeps : (c : Str) (e : Event) (w : W) → Seen e w → Seen e (write_cursor c w)
  pub write_stored :
      (c : Str) (w : W) → (stored (write_cursor c w) ≡ stored w) ⊎ (stored (write_cursor c w) ≡ c)

-- What a server promises about an answer: the next cursor stands for all that the last one stands
-- for, and then for the events of the answer.
abbrev pub Extends :
    {Event : Type 0} → (Str → List Event) → Str → Result FetchError (Str × List Event) → Type 0
Extends history cursor (err e) = Unit {0}
Extends history cursor (ok (next, evs)) =
    (next == []) ≡ false → history next ≡ history cursor ++ evs

module _ {Event : Type 0} {W : Type 0} (emit : Event → W → Bool × W) (write_cursor : Str → W → W)
    (Seen : Event → W → Type 0) (stored : W → Str)
    (sink : IsSink emit write_cursor Seen stored) where
  abbrev pub AllSeen : List Event → W → Type 0
  AllSeen evs w = All (λ e. Seen e w) evs

  pub AllSeen-emit :
      (evs : List Event) (ev : Event) (w : W) → AllSeen evs w → AllSeen evs (emit ev w).1
  AllSeen-emit [] ev w h = tt
  AllSeen-emit (e ∷ evs) ev w h = (sink.emit_keeps ev e w h.0, AllSeen-emit evs ev w h.1)

  AllSeen-write :
      (evs : List Event) (c : Str) (w : W) → AllSeen evs w → AllSeen evs (write_cursor c w)
  AllSeen-write [] c w h = tt
  AllSeen-write (e ∷ evs) c w h = (sink.write_keeps c e w h.0, AllSeen-write evs c w h.1)

  emit_all-keeps :
      (evs old : List Event) (w : W) → AllSeen old w → AllSeen old (emit_all emit evs w).1
  unfolding emit_all
  emit_all-keeps [] old w h = h
  emit_all-keeps (ev ∷ evs) old w h = elim (Bool-cases (emit ev w).0) [
    | inl sent ↦ rw sent (emit_all-keeps evs old (emit ev w).1 (AllSeen-emit old ev w h))
    | inr failed ↦ rw failed (AllSeen-emit old ev w h)
  ]

  emit_all_sent :
      (ev : Event) (evs : List Event) (w : W)
      → (emit ev w).0 ≡ true
      → emit_all emit (ev ∷ evs) w ≡ emit_all emit evs (emit ev w).1
  unfolding emit_all
  emit_all_sent ev evs w sent = rw sent

  emit_all_failed :
      (ev : Event) (evs : List Event) (w : W)
      → (emit ev w).0 ≡ false
      → (emit_all emit (ev ∷ evs) w).0 ≡ false
  unfolding emit_all
  emit_all_failed ev evs w failed = rw failed

  emit_all-seen :
      (evs : List Event) (w : W)
      → (emit_all emit evs w).0 ≡ true
      → AllSeen evs (emit_all emit evs w).1
  emit_all-seen [] w h = tt
  emit_all-seen (ev ∷ evs) w h = elim (Bool-cases (emit ev w).0) [
    | inl sent ↦
        let step = emit_all_sent ev evs w sent in
        subst (λ (r : Bool × W). AllSeen (ev ∷ evs) r.1) (sym step)
          (
            (emit_all-keeps evs (ev ∷ []) (emit ev w).1 (sink.emit_seen ev w sent, tt)).0,
            emit_all-seen evs (emit ev w).1 (rw step at h),
          )
    | inr failed ↦ cc (emit_all_failed ev evs w failed)
  ]

  emit_all-stored : (evs : List Event) (w : W) → stored (emit_all emit evs w).1 ≡ stored w
  unfolding emit_all
  emit_all-stored [] w = refl
  emit_all-stored (ev ∷ evs) w = elim (Bool-cases (emit ev w).0) [
    | inl sent ↦ rw sent (emit_all-stored evs (emit ev w).1 ∙ sink.emit_stored ev w)
    | inr failed ↦ rw failed (sink.emit_stored ev w)
  ]

  module _ (history : Str → List Event) where
    -- All that a cursor stands for has been accepted, for the cursor in memory and the stored one.
    pub record IsCovered (cursor : Str) (w : W) : Type 0 where
      pub memory : AllSeen (history cursor) w
      pub disk : AllSeen (history (stored w)) w

    IsCovered-emit_all :
        (evs : List Event) (cursor : Str) (w : W)
        → IsCovered cursor w
        → IsCovered cursor (emit_all emit evs w).1
    IsCovered-emit_all evs cursor w h = record {
      memory = emit_all-keeps evs (history cursor) w h.memory;
      disk = rw (emit_all-stored evs w) (emit_all-keeps evs (history (stored w)) w h.disk);
    }

    IsCovered-write :
        (next cursor : Str) (w : W)
        → IsCovered cursor w
        → AllSeen (history next) w
        → IsCovered next (write_cursor next w)
    IsCovered-write next cursor w h seen = record {
      memory = AllSeen-write (history next) next w seen;
      disk = elim (sink.write_stored next w) [
        | inl same ↦ rw same (AllSeen-write (history (stored w)) next w h.disk)
        | inr new ↦ rw new (AllSeen-write (history next) next w seen)
      ];
    }

    poll_round-IsCovered :
        (r : Result FetchError (Str × List Event)) (cursor : Str) (w : W)
        → Extends history cursor r
        → IsCovered cursor w
        → let (cursor', w') = poll_round emit write_cursor r cursor w in IsCovered cursor' w'
    unfolding poll_round
    poll_round-IsCovered (err e) cursor w x h = h
    poll_round-IsCovered (ok (next, evs)) cursor w x h = elim (Bool-cases (emit_all emit evs w).0) [
      | inr failed ↦ rw failed (IsCovered-emit_all evs cursor w h)
      | inl sent ↦ elim (Bool-cases (next == [])) [
        | inl blank ↦ rw (sent, blank) (IsCovered-emit_all evs cursor w h)
        | inr named ↦ elim (Bool-cases (next == cursor)) [
          | inl same ↦ rw (sent, named, same) (IsCovered-emit_all evs cursor w h)
          | inr new ↦
              rw (sent, named, new)
                (IsCovered-write next cursor (emit_all emit evs w).1
                  (IsCovered-emit_all evs cursor w h)
                  (rw (x named) (
                    All-append (λ e. Seen e (emit_all emit evs w).1) (history cursor) evs
                      (emit_all-keeps evs (history cursor) w h.memory) (emit_all-seen evs w sent))))
        ]
      ]
    ]

module _ (net : UrlLib) (ce : CloudEvents) (decode_payload : Str → Option Payload) {W : Type 0}
    (emit : ce.Event → W → Bool × W) (write_cursor : Str → W → W) (Seen : ce.Event → W → Type 0)
    (stored : W → Str) (sink : IsSink emit write_cursor Seen stored) (p : PollClient)
    (history : Str → List ce.Event) where
  -- The server keeps its promise at every tick, whatever cursor it is asked from.
  abbrev pub IsServer : List (Request → Reply) → Type 0
  IsServer = All (λ client_do.
      (cursor : Str) → Extends history cursor (fetch ce decode_payload net p client_do cursor))

  abbrev pub Covered : Str → W → Type 0
  Covered = IsCovered emit write_cursor Seen stored sink history

  pub poll_loop-Covered :
      (ticks : List (Request → Reply)) (cursor : Str) (w : W)
      → IsServer ticks
      → Covered cursor w
      → let (cursor', w') = poll_loop net ce decode_payload emit write_cursor p ticks cursor w in
        Covered cursor' w'
  unfolding poll_loop
  poll_loop-Covered [] cursor w x h = h
  poll_loop-Covered (client_do ∷ ticks) cursor w x h =
      let r = fetch ce decode_payload net p client_do cursor in
      let (cursor', w') = poll_round emit write_cursor r cursor w in
      poll_loop-Covered ticks cursor' w' x.1
        (poll_round-IsCovered emit write_cursor Seen stored sink history r cursor w (x.0 cursor) h)

  -- Runs one behind the other, as after restarts: each begins from the cursor in the file.
  pub restarts : List (List (Request → Reply)) → W → W
  restarts [] w = w
  restarts (ticks ∷ more) w =
      restarts more (poll_loop net ce decode_payload emit write_cursor p ticks (stored w) w).1

  -- At-least-once delivery. If the sink has accepted all events that the stored cursor stands for,
  -- then this holds still after any number of runs of any number of ticks, whatever fetches,
  -- emissions and writes of the cursor fail in them. It rests on the server: the next cursor of an
  -- answer stands for the events that the last one stands for and for those of the answer.
  pub restarts-Covered :
      (runs : List (List (Request → Reply))) (w : W)
      → All IsServer runs
      → All (λ e. Seen e w) (history (stored w))
      → let w' = restarts runs w in All (λ e. Seen e w') (history (stored w'))
  unfolding restarts
  restarts-Covered [] w x h = h
  restarts-Covered (ticks ∷ more) w x h =
      let covered = poll_loop-Covered ticks (stored w) w x.0 (record { memory = h; disk = h }) in
      restarts-Covered more
        (poll_loop net ce decode_payload emit write_cursor p ticks (stored w) w).1 x.1 covered.disk
