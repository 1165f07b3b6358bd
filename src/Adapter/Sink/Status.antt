-- ===== src/Adapter/Sink/Status.antt =====
-- How `Send` reports what the sink answered.
use knative_source.Base.{
  ℕ, ◌+◌, ◌≡◌, refl, ◌≤◌, ◌<◌, ◌↔◌, ◌⊎◌, Bool, true, false, ◌||◌, Option, none, some, take, length,
  length-append, leb, nat_beq, arith, zero, suc, [], ◌∷◌,
}
use knative_source.Base.{Str, Option-cases, inl, inr}
use knative_source.Base.Bytes.{bytes}
use knative_source.Base.Http.{UrlLib, Request, Reply, transport_error, response}
use knative_source.Adapter.Event.{CloudEvents}
use knative_source.Adapter.Sink.{
  SinkClient, SendError, build_failed, transport_retryable, status_retryable, status_permanent,
  truncate, classify, apply_overrides, build_binary_request, send, outcome,
}

-- The errors whose text says "retryable".
pub is_retryable : SendError → Bool
is_retryable build_failed = false
is_retryable transport_retryable = true
is_retryable (status_retryable n b) = true
is_retryable (status_permanent n b) = false

-- The bytes of the sink's answer that an error quotes.
pub quoted : SendError → Str
quoted build_failed = []
quoted transport_retryable = []
quoted (status_retryable n b) = b
quoted (status_permanent n b) = b

length-take : (n : ℕ) (s : Str) → length (take n s) ≤ n
length-take zero s = omega arith
length-take (suc n) [] = omega arith
length-take (suc n) (c ∷ s) = omega (arith, length-take n s)

-- A text is cut to the limit, and a cut text is marked by three dots.
pub truncate_bounds : (b : Str) (max : ℕ) → length (truncate b max) ≤ max + 3
unfolding truncate
truncate_bounds b max = ground (arith, length-append (take max b) (bytes "..."), length-take max b)

quoted-truncate :
    (status : ℕ) (body : Str) {e : SendError}
    → classify status body ≡ some e
    → length (quoted e) ≤ 259
unfolding classify quoted
quoted-truncate status body h = ground (arith, truncate_bounds (take 4096 body) 256)

classify-eq-none :
    (status : ℕ) (body : Str) → (classify status body ≡ none) ↔ ((200 ≤ status) × (status < 300))
unfolding classify
classify-eq-none status body = ground arith

classify_refused :
    (status : ℕ) (body : Str)
    → (status < 200) ⊎ (300 ≤ status)
    → (e : SendError) × (classify status body ≡ some e)
      × (is_retryable e ≡ (nat_beq status 408 || nat_beq status 429 || leb 500 status))
classify_refused status body h = go (classify status body) refl
  where
    go :
        (o : Option SendError)
        → classify status body ≡ o
        → (e : SendError) × (classify status body ≡ some e)
          × (is_retryable e ≡ (nat_beq status 408 || nat_beq status 429 || leb 500 status))
    go none p = absurd (omega (arith, (classify-eq-none status body).0 p))
    go (some e) p = (e, p, unfold classify is_retryable in ground arith)

outcome-eq-none :
    (reply : Reply)
    → outcome reply ≡ none
    → (status : ℕ) × (body : Str) × (reply ≡ response status body) × (200 ≤ status) × (status < 300)
unfolding outcome
outcome-eq-none transport_error h = cc
outcome-eq-none (response status body) h =
    let (low, high) = (classify-eq-none status body).0 h in (status, body, refl, low, high)

module _ (net : UrlLib) (ce : CloudEvents) {W : Type 0} (post : Request → W → Reply × W)
    (s : SinkClient) (ev : ce.Event) (w : W) where
  open ce use {Event}

  -- The request that `Send` posts, if it can be built.
  abbrev pub sent_request : Option Request
  sent_request = build_binary_request net ce s.sink (apply_overrides ce s.overrides ev)

  pub send_posted :
      {req : Request}
      → sent_request ≡ some req
      → send net ce post s ev w ≡ (outcome (post req w).0, (post req w).1)
  unfolding send
  send_posted b = ground arith

  pub send_unbuilt : sent_request ≡ none → send net ce post s ev w ≡ (some build_failed, w)
  unfolding send
  send_unbuilt b = ground arith

  accepted :
      (send net ce post s ev w).0 ≡ none
      → (req : Request) × (status : ℕ) × (body : Str) × (sent_request ≡ some req)
        × ((post req w).0 ≡ response status body)
        × (200 ≤ status)
        × (status < 300)
  accepted h = elim (Option-cases sent_request) [
    | inl b ↦ cc (send_unbuilt b)
    | inr (req, b) ↦
        let (status, body, r, low, high) =
          outcome-eq-none (post req w).0 (rw (send_posted b) at h) in
        (req, status, body, b, r, low, high)
  ]

  -- A nil error means that the request was built and posted, and that the sink answered with a
  -- status from 200 to 299; and such an answer always gives a nil error.
  pub send-eq-none_iff : ((send net ce post s ev w).0 ≡ none) ↔ (
      (req : Request) × (status : ℕ) × (body : Str) × (sent_request ≡ some req)
      × ((post req w).0 ≡ response status body)
      × (200 ≤ status)
      × (status < 300))
  unfolding outcome
  send-eq-none_iff = (
    accepted,
    λ (req, status, body, b, r, low, high).
        rw (send_posted b, r) ((classify-eq-none status body).1 (low, high)),
  )

  -- A request that is posted, and a sink that answers outside 200 to 299: the error is retryable
  -- exactly when the status is 408, 429 or at least 500, and it quotes at most 259 bytes.
  pub send_refused :
      {req : Request} {status : ℕ} {body : Str}
      → sent_request ≡ some req
      → (post req w).0 ≡ response status body
      → (status < 200) ⊎ (300 ≤ status)
      → (e : SendError) × ((send net ce post s ev w).0 ≡ some e)
        × (is_retryable e ≡ (nat_beq status 408 || nat_beq status 429 || leb 500 status))
        × (length (quoted e) ≤ 259)
  unfolding outcome
  send_refused {status} {body} b r h =
      let (e, p, q) = classify_refused status body h in
      (e, rw (send_posted b, r) p, q, quoted-truncate status body p)
