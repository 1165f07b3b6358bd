-- ===== src/Injection/Reconcile/Leader.antt =====
-- What `Reconcile` does for the leader.
use knative_source.Base.{◌≡◌, ◌⊎◌, true, ℕ, Option, none, some, Str}
use knative_source.Api.Types.{YipYapSource, YipYapSourceStatus}
use knative_source.Injection.Interface.{
  ApiError, EventType, Event, reconciler_event, ReconcilerImpl,
}
use knative_source.Injection.State.{State}
use knative_source.Injection.Reconcile.{Failure, returned, status_failed, Run}
use knative_source.Injection.Reconcile.Status.{IsStore}

module _ {C W : Type 0} (r : ReconcilerImpl C W) where
  -- The error that an event makes of a run: a plain event makes none.
  abbrev pub failure_of : Option Event → Option Failure
  failure_of none = none
  failure_of (some (reconciler_event t reason message)) = none
  failure_of (some e) = some (returned e)

  module _ (original : YipYapSource C) (w : W) where
    -- What `ReconcileKind` makes of the source, and the source that it leaves.
    abbrev pub outcome : (YipYapSource C × Option Event) × W
    outcome = r.reconciler.reconcile_kind (r.pre_process original) w

    abbrev pub desired : YipYapSource C
    desired = r.post_process outcome.0.0 original

    module _ (stored : W → YipYapSourceStatus C) (retries : ℕ)
        (store : IsStore r desired.meta.namespace desired.meta.name stored retries)
        (recorded : (o : YipYapSource C) (t : EventType) (reason message : Str) (v : W)
          → stored (r.record_event o t reason message v) ≡ stored v) where
      -- What a run leaves in the server, behind what `ReconcileKind` left: the status that is wanted,
      -- or, where the cached status is that one, what was there. The error is then that of the event;
      -- else it is the one of the update.
      abbrev pub Settles : W → Option Event → Run r → Type 0
      Settles before event run =
          ((run.0 ≡ failure_of event)
            × (((r.status_equal original.status desired.status ≡ true)
                  × (stored run.1 ≡ stored before))
                ⊎ (r.status_equal (stored run.1) desired.status ≡ true)))
          ⊎ ((e : ApiError) × (run.0 ≡ some (status_failed e)))
