-- ===== src/Injection/Reconcile/Status.antt =====
-- What `updateStatus` achieves.
use knative_source.Base.{
  ◌≡◌, refl, ◌∙◌, sym, ap, ℕ, zero, suc, true, false, Option, none, some, Str, arith, Bool-cases,
  inl, inr,
}
use knative_source.Base.Result.{Result, ok, err}
use knative_source.Api.Types.{YipYapSource, YipYapSourceStatus}
use knative_source.Injection.Interface.{ApiError, is_not_found, is_conflict, other, ReconcilerImpl}
use knative_source.Injection.Reconcile.{push_status, push_latest, status_attempt, update_status}

-- Attempts in a row, as long as there is a conflict and one is left.
attempts_behind :
    {W : Type 0} → Option ApiError → (W → Option ApiError × W) → W → Option ApiError × W
attempts_behind none rest w = (none, w)
attempts_behind (some is_not_found) rest w = (some is_not_found, w)
attempts_behind (some (other m)) rest w = (some (other m), w)
attempts_behind (some is_conflict) rest w = rest w

unfoldable pub attempts :
    {W : Type 0} → ℕ → ℕ → (ℕ → W → Option ApiError × W) → W → Option ApiError × W
unfolding attempts_behind
attempts zero n f w = f n w
attempts (suc left) n f w = attempts_behind (f n w).0 (attempts left (suc n) f) (f n w).1

module _ {C W : Type 0} (r : ReconcilerImpl C W) where
  -- What is relied on of the API server and of `RetryUpdateConflicts`: `stored` is the status in the
  -- server for a source, which a read returns and an update that succeeds sets; the retry makes a
  -- number of attempts.
  pub record IsStore (namespace name : Str) (stored : W → YipYapSourceStatus C) (retries : ℕ)
      : Type 0 where
    pub get-stored :
        (w : W) (latest : YipYapSource C)
        → (r.client.get namespace name w).0 ≡ ok latest
        → latest.status ≡ stored (r.client.get namespace name w).1
    pub update-stored :
        (o : YipYapSource C) (w : W)
        → (r.client.update_status o w).0 ≡ none
        → stored (r.client.update_status o w).1 ≡ o.status
    pub retry-attempts :
        (f : ℕ → W → Option ApiError × W) (w : W)
        → r.retry_update_conflicts f w ≡ attempts retries 0 f w
    pub equal_refl : (s : YipYapSourceStatus C) → r.status_equal s s ≡ true

  module _ (existing desired : YipYapSource C) (stored : W → YipYapSourceStatus C) (retries : ℕ)
      (store : IsStore desired.meta.namespace desired.meta.name stored retries) where
    abbrev IsStored : Option ApiError × W → Type 0
    IsStored run = run.0 ≡ none → r.status_equal (stored run.1) desired.status ≡ true

    pushed :
        (o : YipYapSource C) (w : W)
        → IsStored (r.client.update_status (record o { status = desired.status }) w)
    pushed o w h =
        ap (λ s. r.status_equal s desired.status)
          (store.update-stored (record o { status = desired.status }) w h)
        ∙ store.equal_refl desired.status

    first-IsStored :
        (w : W)
        → r.status_equal existing.status desired.status ≡ false
        → IsStored (push_status r existing desired w)
    unfolding push_status
    first-IsStored w differs = rw differs (pushed existing w)

    latest-IsStored :
        (w : W) (answer : Result ApiError (YipYapSource C))
        → ((latest : YipYapSource C) → answer ≡ ok latest → latest.status ≡ stored w)
        → IsStored (push_latest r desired answer w)
    unfolding push_latest push_status
    latest-IsStored w (err e) read = λ h. ground arith
    latest-IsStored w (ok latest) read =
        elim (Bool-cases (r.status_equal latest.status desired.status)) [
          | inl same ↦
              rw same
                (λ h. ap (λ s. r.status_equal s desired.status) (sym (read latest refl)) ∙ same)
          | inr differs ↦ rw differs (pushed latest w)
        ]

    attempt-IsStored :
        (n : ℕ) (w : W)
        → r.status_equal existing.status desired.status ≡ false
        → IsStored (status_attempt r existing desired n w)
    unfolding status_attempt
    attempt-IsStored zero w differs = first-IsStored w differs
    attempt-IsStored (suc n) w differs = latest-IsStored _ _ (store.get-stored w)

    behind-IsStored :
        (e : Option ApiError) (rest : W → Option ApiError × W) (w : W)
        → IsStored (e, w)
        → ((w' : W) → IsStored (rest w'))
        → IsStored (attempts_behind e rest w)
    unfolding attempts_behind
    behind-IsStored none rest w h hr = h
    behind-IsStored (some is_not_found) rest w h hr = h
    behind-IsStored (some (other m)) rest w h hr = h
    behind-IsStored (some is_conflict) rest w h hr = hr w

    attempts-IsStored :
        (left n : ℕ) (w : W)
        → r.status_equal existing.status desired.status ≡ false
        → IsStored (attempts left n (status_attempt r existing desired) w)
    unfolding attempts
    attempts-IsStored zero n w differs = attempt-IsStored n w differs
    attempts-IsStored (suc left) n w differs =
        behind-IsStored _ _ _ (attempt-IsStored n w differs)
          (λ w'. attempts-IsStored left (suc n) w' differs)

    -- An update of the status that returns no error leaves the wanted status in the server, whatever
    -- others wrote in between: where it is not retried, and where it is, on what a fresh read returns.
    pub update_status-stores :
        (w : W)
        → r.status_equal existing.status desired.status ≡ false
        → (update_status r existing desired w).0 ≡ none
        → r.status_equal (stored (update_status r existing desired w).1) desired.status ≡ true
    unfolding update_status
    update_status-stores w differs =
        rw (store.retry-attempts (status_attempt r existing desired) w)
          (attempts-IsStored retries 0 w differs)
