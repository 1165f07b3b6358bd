-- ===== src/Adapter/Stream/Keeps.antt =====
-- A stream changes the world by emissions alone: what every emission keeps, a stream keeps.
use knative_source.Base.{
  ℕ, Bool, List, [], ◌∷◌, Str, str_eq, ◌==◌, Bool-cases, Option-cases, inl, inr, leb, length,
  nat_beq, if◌then◌else◌,
}
use knative_source.Base.Bytes.Trim.{trim_space}
use knative_source.Base.Http.{UrlLib, Request}
use knative_source.Adapter.Event.{CloudEvents}
use knative_source.Adapter.Stream.{
  StreamClient, StreamReply, transport_error, response, Attempt, max_line, next_backoff,
  stream_backoff_initial, drop_cr, raw_lines, handle_line, scan, stream_reply, stream_url,
  stream_request, stream_once, stream_loop, stream_run,
}

module _ (ce : CloudEvents) {W : Type 0} (emit : ce.Event → W → Bool × W) (P : W → Type 0)
    (keeps : (ev : ce.Event) (w : W) → P w → P (emit ev w).1) where
  handle_line_keeps : (raw : Str) (got : Bool) (w : W) → P w → P (handle_line ce emit raw got w).1
  unfolding handle_line
  handle_line_keeps raw got w h = elim (Bool-cases (trim_space (drop_cr raw) == [])) [
    | inl blank ↦ rw (blank, handle_line) h
    | inr text ↦ elim (Option-cases (ce.unmarshal (drop_cr raw))) [
      | inl bad ↦ rw (text, bad, handle_line) h
      | inr (ev, event) ↦ rw (text, event, handle_line) (keeps ev w h)
    ]
  ]

  scan_keeps : (raws : List Str) (got : Bool) (w : W) → P w → P (scan ce emit raws got w).2
  unfolding scan
  scan_keeps [] got w h = h
  scan_keeps (raw ∷ raws) got w h = elim (Bool-cases (leb max_line (length raw))) [
    | inl long ↦ rw long h
    | inr fits ↦
        let (got', w') = handle_line ce emit raw got w in
        rw fits (scan_keeps raws got' w' (handle_line_keeps raw got w h))
  ]

  stream_reply_keeps : (reply : StreamReply) (w : W) → P w → P (stream_reply ce emit reply w).2
  unfolding stream_reply
  stream_reply_keeps transport_error w h = h
  stream_reply_keeps (response status body broken) w h = elim (Bool-cases (nat_beq status 200)) [
    | inl ok ↦ rw ok (scan_keeps (raw_lines body) _ w h)
    | inr bad ↦ rw bad h
  ]

  module _ (net : UrlLib) (s : StreamClient) where
    stream_once_keeps :
        (client_do : Request → StreamReply) (w : W)
        → P w
        → P (stream_once net ce emit s client_do w).2
    unfolding stream_once
    stream_once_keeps client_do w h = elim (Option-cases (stream_url net s)) [
      | inl bad ↦ rw (bad, stream_once) h
      | inr (url, good) ↦ elim (Bool-cases (net.is_requestable url)) [
        | inr refused ↦ rw (good, refused, stream_once) h
        | inl accepted ↦
            rw (good, accepted, stream_once)
              (stream_reply_keeps (client_do (stream_request s url)) w h)
      ]
    ]

    stream_loop_keeps :
        (as' : List Attempt) (backoff : ℕ) (w : W)
        → P w
        → P (stream_loop net ce emit s as' backoff w).1
    unfolding stream_loop
    stream_loop_keeps [] backoff w h = h
    stream_loop_keeps (a ∷ as') backoff w h =
        let (got, _, w') = stream_once net ce emit s a.client_do w in
        let wait = if got then stream_backoff_initial else backoff in
        let h' = stream_once_keeps a.client_do w h in
        elim (Bool-cases a.cancelled) [
          | inl c ↦ rw c h'
          | inr c ↦ elim (Bool-cases a.cancelled_wait) [
            | inl d ↦ rw (c, d) h'
            | inr d ↦ rw (c, d) (stream_loop_keeps as' (next_backoff wait) w' h')
          ]
        ]

    -- What every emission keeps, a stream keeps, over all its connections.
    pub stream_run_keeps : (as' : List Attempt) (w : W) → P w → P (stream_run net ce emit s as' w).1
    unfolding stream_run
    stream_run_keeps as' w h = stream_loop_keeps as' stream_backoff_initial w h
