-- ===== src/Injection/Reconcile.antt =====
-- `Reconcile` and `updateStatus` of reconciler.go.
pub mod Laws
pub mod Leader
pub mod Steps
pub mod Status
use knative_source.Base.{
  ℕ, zero, suc, Bool, not, Option, none, some, List, [], ◌∷◌, if◌then◌else◌, Str,
}
use knative_source.Base.Bytes.{bytes}
use knative_source.Base.Result.{Result, ok, err}
use knative_source.Api.Types.{YipYapSource}
use knative_source.Injection.Interface.{
  ApiError, is_not_found, is_conflict, other, EventType, warning, Event, reconciler_event,
  wrapped_event, skip_event, requeue_event, conflict_event, error_event, DoReconcile,
  ReconcilerImpl,
}
use knative_source.Injection.State.{
  State, Method, do_reconcile_kind, do_observe_kind, do_finalize_kind, unknown, new_state,
  is_not_leader_nor_observer, reconcile_method_for,
}
use knative_source.Injection.Finalizers.{Updated, set_finalizer_if_finalizer, clear_finalizer}

-- The errors that `Reconcile` returns.
pub data Failure : Type 0 where
  skip_key : Str → Failure
  lister_failed : ApiError → Failure
  set_finalizers_failed : ApiError → Failure
  clear_finalizers_failed : ApiError → Failure
  status_failed : ApiError → Failure
  returned : Event → Failure

module _ {C W : Type 0} (r : ReconcilerImpl C W) where
  abbrev pub Run : Type 0
  Run = Option Failure × W

  -- The part of an attempt behind the read.
  push_status : YipYapSource C → YipYapSource C → W → Option ApiError × W
  push_status existing desired w =
      if r.status_equal existing.status desired.status
      then (none, w)
      else r.client.update_status (record existing { status = desired.status }) w

  push_latest : YipYapSource C → Result ApiError (YipYapSource C) → W → Option ApiError × W
  unfolding push_status
  push_latest desired (err e) w = (some e, w)
  push_latest desired (ok latest) w = push_status latest desired w

  -- The function that is retried, for the number of earlier attempts.
  status_attempt : YipYapSource C → YipYapSource C → ℕ → W → Option ApiError × W
  unfolding push_status push_latest
  status_attempt existing desired zero w = push_status existing desired w
  status_attempt existing desired (suc n) w =
      let (latest, w') = r.client.get desired.meta.namespace desired.meta.name w in
      push_latest desired latest w'

  unfoldable pub update_status : YipYapSource C → YipYapSource C → W → Option ApiError × W
  unfolding status_attempt
  update_status existing desired = r.retry_update_conflicts (status_attempt existing desired)

  -- The first switch at the end: whether there is an error to return.
  sync_status : State C W → YipYapSource C → YipYapSource C → W → Option ApiError × W
  unfolding update_status
  sync_status s original resource w =
      if r.skip_status_updates
      then (none, w)
      else (if r.status_equal original.status resource.status
          then (none, w)
          else (if not s.is_leader then (none, w) else update_status original resource w))

  -- What becomes of the event.
  pub report : YipYapSource C → Option Event → W → Run
  report resource none w = (none, w)
  report resource (some (reconciler_event t reason message)) w =
      (none, r.record_event resource t reason message w)
  report resource (some (wrapped_event t reason message)) w =
      (some (returned (wrapped_event t reason message)), r.record_event resource t reason message w)
  report resource (some (skip_event m)) w = (some (returned (skip_event m)), w)
  report resource (some (requeue_event m)) w = (some (returned (requeue_event m)), w)
  report resource (some (conflict_event m)) w = (some (returned (conflict_event m)), w)
  report resource (some (error_event m)) w =
      (some (returned (error_event m)), r.record_event resource warning (bytes "InternalError") m w)

  conclude : YipYapSource C → Option Event → Option ApiError × W → Run
  unfolding report
  conclude resource event (none, w) = report resource event w
  conclude resource event (some e, w) = (
    some (status_failed e),
    r.record_event resource warning (bytes "UpdateFailed") resource.meta.name w,
  )

  -- From the end of the switch on the method.
  finish_run : State C W → YipYapSource C → YipYapSource C → Option Event → W → Run
  unfolding sync_status conclude
  finish_run s original resource event w =
      conclude resource event (sync_status s original resource w)

  run_reconcile : State C W → YipYapSource C → DoReconcile C W → Updated r → Run
  unfolding finish_run
  run_reconcile s original call ((resource, some e), w) = (some (set_finalizers_failed e), w)
  run_reconcile s original call ((resource, none), w) =
      let ((resource', event), w') =
        call (if not r.skip_status_updates then r.pre_process resource else resource) w in
      finish_run s original
        (if not r.skip_status_updates then r.post_process resource' original else resource') event
        w'

  run_finalize : State C W → YipYapSource C → Option Event → Updated r → Run
  unfolding finish_run
  run_finalize s original event ((resource, some e), w) = (some (clear_finalizers_failed e), w)
  run_finalize s original event ((resource, none), w) = finish_run s original resource event w

  run_method : State C W → YipYapSource C → Method C W → W → Run
  unfolding run_reconcile run_finalize finish_run
  run_method s original (do_reconcile_kind call) w =
      run_reconcile s original call (set_finalizer_if_finalizer r original w)
  run_method s original (do_finalize_kind call) w =
      let ((resource, event), w') = call original w in
      run_finalize s original event (clear_finalizer r resource event w')
  run_method s original (do_observe_kind call) w =
      let ((resource, event), w') = call original w in finish_run s original resource event w'
  run_method s original unknown w = finish_run s original original none w

  report_deletion : State C W → Option (Str → Str → W → Option Event × W) → W → Run
  report_deletion s none w = (none, w)
  report_deletion s (some observe) w =
      let (event, w') = observe s.namespace s.name w in
      (elim event [ none ↦ none | some e ↦ some (returned e) ], w')

  pub run_found : State C W → Result ApiError (YipYapSource C) → W → Run
  unfolding run_method report_deletion
  run_found s (err is_not_found) w = report_deletion s r.reconciler.observe_deletion w
  run_found s (err is_conflict) w = (some (lister_failed is_conflict), w)
  run_found s (err (other m)) w = (some (lister_failed (other m)), w)
  run_found s (ok original) w = run_method s original (reconcile_method_for s original) w

  pub run_state : Result Str (State C W) → W → Run
  unfolding run_found
  run_state (err key) w = (none, w)
  run_state (ok s) w =
      if is_not_leader_nor_observer s
      then (some (skip_key s.key), w)
      else run_found s (r.lister s.namespace s.name) w

  unfoldable pub reconcile : Str → W → Run
  unfolding run_state
  reconcile key w = run_state (new_state key r) w
