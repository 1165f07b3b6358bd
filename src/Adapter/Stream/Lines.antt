-- ===== src/Adapter/Stream/Lines.antt =====
-- Which events a connection emits, and what it reports.
use knative_source.Base.{
  ◌≡◌, refl, Bool, true, false, not, ◌||◌, none, some, List, [], ◌∷◌, length, leb, arith,
}
use knative_source.Base.{
  if◌then◌else◌, Str, str_eq, ◌==◌, Bool-cases, Option-cases, is_some, inl, inr,
}
use knative_source.Base.Bytes.Trim.{trim_space}
use knative_source.Adapter.Event.{CloudEvents}
use knative_source.Adapter.Stream.{
  max_line, drop_cr, handle_line, scan, raw_lines, stream_reply, response,
}

-- The lines before the first that does not fit the buffer.
pub fitting : List Str → List Str
fitting [] = []
fitting (raw ∷ raws) = if leb max_line (length raw) then [] else raw ∷ fitting raws

pub has_long : List Str → Bool
has_long [] = false
has_long (raw ∷ raws) = leb max_line (length raw) || has_long raws

module _ (ce : CloudEvents) where
  -- The events of the lines that are not blank and not malformed.
  pub line_events : List Str → List ce.Event
  line_events [] = []
  line_events (raw ∷ raws) =
      let rest = line_events raws in
      if trim_space (drop_cr raw) == []
      then rest
      else elim (ce.unmarshal (drop_cr raw)) [ none ↦ rest | some ev ↦ ev ∷ rest ]

abbrev pub is_empty : {A : Type 0} → List A → Bool
is_empty [] = true
is_empty (a ∷ as') = false

or-true : (b : Bool) → (b || true) ≡ true
or-true true = refl
or-true false = refl

module _ {Event : Type 0} {W : Type 0} (emit : Event → W → Bool × W) where
  -- All events are emitted, one behind the other, also behind one that fails.
  pub emit_each : List Event → W → W
  emit_each [] w = w
  emit_each (ev ∷ evs) w = emit_each evs (emit ev w).1

module _ (ce : CloudEvents) {W : Type 0} (emit : ce.Event → W → Bool × W) where
  handled :
      (raw : Str) (raws : List Str) (got : Bool) (w : W)
      → let (got', w') = handle_line ce emit raw got w in
        let evs = line_events ce (raw ∷ fitting raws) in
        let rest = line_events ce (fitting raws) in
        ◌≡◌ {A = Bool × Bool × W}
          (got' || not (is_empty rest), has_long raws, emit_each emit rest w')
          (got || not (is_empty evs), has_long raws, emit_each emit evs w)
  unfolding handle_line line_events emit_each
  handled raw raws got w = elim (Bool-cases (trim_space (drop_cr raw) == [])) [
    | inl blank ↦ rw (blank, handle_line)
    | inr text ↦ elim (Option-cases (ce.unmarshal (drop_cr raw))) [
      | inl bad ↦ rw (text, bad, handle_line)
      | inr (ev, event) ↦ rw (text, event, handle_line) (rw (or-true got))
    ]
  ]

  scan_lem :
      (raws : List Str) (got : Bool) (w : W)
      → let evs = line_events ce (fitting raws) in
        scan ce emit raws got w ≡ (got || not (is_empty evs), has_long raws, emit_each emit evs w)
  unfolding scan fitting has_long line_events emit_each
  scan_lem [] true w = refl
  scan_lem [] false w = refl
  scan_lem (raw ∷ raws) got w = elim (Bool-cases (leb max_line (length raw))) [
    | inl long ↦ rw long (ground arith)
    | inr fits ↦
        rw (fits, scan_lem raws (handle_line ce emit raw got w).0 (handle_line ce emit raw got w).1)
          (handled raw raws got w)
  ]

  -- A response with status 200: the events of its lines are emitted in order, each once and also
  -- behind a failed emission, up to the first line that does not fit the scanner's buffer.
  -- `gotEvent` says whether there was one, and not whether the sink accepted any.
  pub stream_reply-ok :
      (body : Str) (broken : Bool) (w : W)
      → let evs = line_events ce (fitting (raw_lines body)) in
        let (got, e, w') = stream_reply ce emit (response 200 body broken) w in
        (got ≡ not (is_empty evs))
        × (is_some e ≡ (has_long (raw_lines body) || broken))
        × (w' ≡ emit_each emit evs w)
  unfolding stream_reply
  stream_reply-ok body broken w = rw (scan_lem (raw_lines body) false w) (refl, ground arith, refl)
