-- ===== src/Injection/Reconcile/Laws.antt =====
-- What `Reconcile` does not do: the runs of a follower, and those of a source that is being deleted.
use knative_source.Base.{
  ◌≡◌, refl, ◌∙◌, sym, ap, true, false, Option, none, some, Str, arith, Bool-cases, inl, inr,
}
use knative_source.Base.Result.{Result, ok, err}
use knative_source.Api.Types.{YipYapSource, YipYapSourceStatus}
use knative_source.Injection.Interface.{
  ApiError, is_not_found, is_conflict, other, EventType, Event, DoReconcile, ReconcilerImpl,
}
use knative_source.Injection.State.{
  State, Method, do_observe_kind, do_reconcile_kind, do_finalize_kind, unknown,
  is_not_leader_nor_observer, reconcile_method_for, live_method, deleted_method,
}
use knative_source.Injection.Reconcile.{
  reconcile, run_state, run_found, run_method, finish_run, sync_status, conclude, report,
  report_deletion,
}
use knative_source.Injection.Reconcile.Steps.{
  state_of, new_state_lem, run_state_leader, report-view,
}

module _ {C W : Type 0} (r : ReconcilerImpl C W) where
  finish_unchanged :
      ((s : YipYapSourceStatus C) → r.status_equal s s ≡ true)
      → (s : State C W) (original : YipYapSource C) (w : W)
      → finish_run r s original original none w ≡ (none, w)
  unfolding finish_run sync_status conclude report
  finish_unchanged same s original w = ground (arith, same original.status)

  no_method :
      (s : State C W) (o : YipYapSource C)
      → o.meta.is_deleted ≡ true
      → s.reconciler.finalize_kind ≡ none
      → reconcile_method_for s o ≡ unknown
  unfolding reconcile_method_for
  no_method s o deleted no_finalizer = rw (deleted, no_finalizer, reconcile_method_for) refl

  -- A source that is being deleted is left alone where the reconciler has no Finalizer: no method
  -- runs, no request is made and no error returned.
  pub reconcile_deleted :
      ((s : YipYapSourceStatus C) → r.status_equal s s ≡ true)
      → (key namespace name : Str) (original : YipYapSource C) (w : W)
      → r.split_key key ≡ some (namespace, name)
      → r.is_leader_for namespace name ≡ true
      → r.lister namespace name ≡ ok original
      → original.meta.is_deleted ≡ true
      → r.reconciler.finalize_kind ≡ none
      → reconcile r key w ≡ (none, w)
  unfolding reconcile run_found run_method state_of
  reconcile_deleted same key namespace name original w split leads found deleted no_finalizer =
      let s = state_of r key namespace name in
      ap (λ x. run_state r x w) (new_state_lem r split)
      ∙ run_state_leader r s w leads
      ∙ ap (λ x. run_found r s x w) found
      ∙ ap (λ x. run_method r s original x w) (no_method s original deleted no_finalizer)
      ∙ finish_unchanged same s original w

  -- What observes a resource without being its leader leaves a part of the world alone: the part that
  -- the client writes.
  pub record IsReadOnly {V : Type 0} (view : W → V) : Type 0 where
    pub observe-view :
        (call : DoReconcile C W)
        → r.reconciler.observe_kind ≡ some call
        → (o : YipYapSource C) (w : W) → view (call o w).1 ≡ view w
    pub deletion-view :
        (call : Str → Str → W → Option Event × W)
        → r.reconciler.observe_deletion ≡ some call
        → (namespace name : Str) (w : W) → view (call namespace name w).1 ≡ view w
    pub record-view :
        (o : YipYapSource C) (t : EventType) (reason message : Str) (w : W)
        → view (r.record_event o t reason message w) ≡ view w

  -- The methods of a follower.
  IsFollowing : Method C W → Type 0
  IsFollowing unknown = Unit
  IsFollowing (do_observe_kind call) = r.reconciler.observe_kind ≡ some call
  IsFollowing (do_reconcile_kind call) = ⊥
  IsFollowing (do_finalize_kind call) = ⊥

  live-IsFollowing :
      (s : State C W) (roi : Option (DoReconcile C W))
      → s.is_leader ≡ false
      → r.reconciler.observe_kind ≡ roi
      → IsFollowing (live_method s roi)
  unfolding live_method IsFollowing
  live-IsFollowing s none follows same = rw follows tt
  live-IsFollowing s (some call) follows same = rw follows same

  deleted-IsFollowing :
      (s : State C W) (finalize : Option (DoReconcile C W))
      → s.is_leader ≡ false
      → IsFollowing (deleted_method s finalize)
  unfolding deleted_method IsFollowing
  deleted-IsFollowing s none follows = tt
  deleted-IsFollowing s (some call) follows = rw follows tt

  method-IsFollowing :
      (s : State C W) (o : YipYapSource C)
      → s.is_leader ≡ false
      → s.roi ≡ r.reconciler.observe_kind
      → IsFollowing (reconcile_method_for s o)
  unfolding reconcile_method_for
  method-IsFollowing s o follows same = elim (Bool-cases o.meta.is_deleted) [
    | inl deleted ↦ rw deleted (deleted-IsFollowing s s.reconciler.finalize_kind follows)
    | inr live ↦ rw live (live-IsFollowing s s.roi follows (sym same))
  ]

  module _ {V : Type 0} (view : W → V) (read_only : IsReadOnly view) where
    sync_status_follower :
        (s : State C W) (original resource : YipYapSource C) (w : W)
        → s.is_leader ≡ false
        → sync_status r s original resource w ≡ (none, w)
    unfolding sync_status
    sync_status_follower s original resource w follows = ground arith

    finish_run-view :
        (s : State C W) (original resource : YipYapSource C) (event : Option Event) (w : W)
        → s.is_leader ≡ false
        → view (finish_run r s original resource event w).1 ≡ view w
    unfolding finish_run conclude
    finish_run-view s original resource event w follows =
        rw (sync_status_follower s original resource w follows)
          (report-view r view read_only.record-view resource event w)

    deletion_view :
        (s : State C W) (observe : Option (Str → Str → W → Option Event × W)) (w : W)
        → r.reconciler.observe_deletion ≡ observe
        → view (report_deletion r s observe w).1 ≡ view w
    unfolding report_deletion
    deletion_view s none w h = refl
    deletion_view s (some call) w h = read_only.deletion-view call h s.namespace s.name w

    run_method-view :
        (s : State C W) (method : Method C W) (o : YipYapSource C) (w : W)
        → s.is_leader ≡ false
        → IsFollowing method
        → view (run_method r s o method w).1 ≡ view w
    unfolding run_method IsFollowing
    run_method-view s unknown o w follows h = finish_run-view s o o none w follows
    run_method-view s (do_observe_kind call) o w follows h =
        let ((o', event), w') = call o w in
        finish_run-view s o o' event w' follows ∙ read_only.observe-view call h o w
    run_method-view s (do_reconcile_kind call) o w follows h = elim h [ ]
    run_method-view s (do_finalize_kind call) o w follows h = elim h [ ]

    found_view :
        (s : State C W) (answer : Result ApiError (YipYapSource C)) (w : W)
        → s.is_leader ≡ false
        → s.roi ≡ r.reconciler.observe_kind
        → view (run_found r s answer w).1 ≡ view w
    unfolding run_found
    found_view s (err is_not_found) w follows same = deletion_view s _ w refl
    found_view s (err is_conflict) w follows same = refl
    found_view s (err (other m)) w follows same = refl
    found_view s (ok o) w follows same =
        run_method-view s (reconcile_method_for s o) o w follows
          (method-IsFollowing s o follows same)

    run_follower :
        (s : State C W) (w : W)
        → s.is_leader ≡ false
        → s.roi ≡ r.reconciler.observe_kind
        → view (run_state r (ok s) w).1 ≡ view w
    unfolding run_state
    run_follower s w follows same = elim (Bool-cases (is_not_leader_nor_observer s)) [
      | inl skips ↦ rw skips refl
      | inr observes ↦ rw observes (found_view s (r.lister s.namespace s.name) w follows same)
    ]

    -- Where this instance does not lead, a run leaves what the client writes as it was: whatever the
    -- lister answers, and whether or not the reconciler observes.
    pub reconcile_follower :
        (key namespace name : Str) (w : W)
        → r.split_key key ≡ some (namespace, name)
        → r.is_leader_for namespace name ≡ false
        → view (reconcile r key w).1 ≡ view w
    unfolding reconcile state_of
    reconcile_follower key namespace name w split follows =
        let s = state_of r key namespace name in
        ap (λ x. view (run_state r x w).1) (new_state_lem r split) ∙ run_follower s w follows refl
