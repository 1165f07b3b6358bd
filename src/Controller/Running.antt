-- ===== src/Controller/Running.antt =====
-- `ReconcileKind` below the generated reconciler: pkg/reconciler/yipyapsource/yipyapsource.go, as
-- pkg/client/injection/reconciler/sources/v1alpha1/yipyapsource/reconciler.go calls it.
use knative_source.Base.{◌≡◌, ◌↔◌, true, Option, none, some, List, Str}
use knative_source.Knative.Condition.{ConditionManager, IsLiving, status_of}
use knative_source.Api.Types.{YipYapSource}
use knative_source.Api.Lifecycle.{
  Status, yipyap_dependents, condition_sink_provided, condition_deployed, is_ready,
}
use knative_source.Api.Lifecycle.Ready.{Holds}
use knative_source.Controller.Reconcile.{Reconciler, ReconcileError, Write, reconcile_kind}
use knative_source.Injection.Interface.{Event, error_event, DoReconcile, ReconcilerImpl}

module _ (m : ConditionManager) (living : IsLiving yipyap_dependents m) {W : Type 0}
    (perform : List Write → W → W) (text : ReconcileError → Str) (r : Reconciler m) where
  open m use {Conditions}

  abbrev event_of : Option ReconcileError → Option Event
  event_of none = none
  event_of (some e) = some (error_event (text e))

  -- The call: the requests change the world by `perform`, and an error has a text.
  unfoldable pub reconcile_call : DoReconcile Conditions W
  reconcile_call src w =
      let o = reconcile_kind m r src in
      ((record src { status = o.status }, event_of o.error), perform o.writes w)

  -- A status is ready exactly when its SinkProvided and its Deployed conditions are True.
  abbrev pub IsConsistent : Status m → Type 0
  IsConsistent s =
      (is_ready m s ≡ true) ↔ (Holds m condition_sink_provided s × Holds m condition_deployed s)

  -- What is relied on of the steps around `ReconcileKind` and of the equality of statuses: the
  -- post-processing changes the times of the conditions and the observed generation alone, and equal
  -- statuses have equal conditions.
  pub record IsGrooming (g : ReconcilerImpl Conditions W) : Type 0 where
    pub post_process-status :
        (c : Str) (o original : YipYapSource Conditions)
        → status_of m c (g.post_process o original).status.conditions
          ≡ status_of m c o.status.conditions
    pub equal-status :
        (c : Str) (s t : Status m)
        → g.status_equal s t ≡ true
        → status_of m c s.conditions ≡ status_of m c t.conditions
