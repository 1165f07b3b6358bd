-- ===== src/Injection/State.antt =====
-- pkg/client/injection/reconciler/sources/v1alpha1/yipyapsource/state.go
use knative_source.Base.{Bool, not, ◌&&◌, Option, none, some, is_some, if◌then◌else◌, Str}
use knative_source.Base.Result.{Result, ok, err}
use knative_source.Api.Types.{YipYapSource}
use knative_source.Injection.Interface.{DoReconcile, Interface, ReconcilerImpl}

pub record State (C W : Type 0) : Type 0 where
  pub key : Str
  pub namespace : Str
  pub name : Str
  pub reconciler : Interface C W
  pub roi : Option (DoReconcile C W)
  pub is_roi : Bool
  pub is_leader : Bool

-- The method that a resource calls for; the code's fourth name, "unknown", has none.
pub data Method (C W : Type 0) : Type 0 where
  do_reconcile_kind do_observe_kind do_finalize_kind : DoReconcile C W → Method C W
  unknown : Method C W

module _ {C W : Type 0} where
  -- The error names the key.
  unfoldable pub new_state : Str → ReconcilerImpl C W → Result Str (State C W)
  new_state key r = elim (r.split_key key) [
    | none ↦ err key
    | some (namespace, name) ↦ ok (record {
      key = key;
      namespace = namespace;
      name = name;
      reconciler = r.reconciler;
      roi = r.reconciler.observe_kind;
      is_roi = is_some r.reconciler.observe_kind;
      is_leader = r.is_leader_for namespace name;
    })
  ]

  unfoldable pub is_not_leader_nor_observer : State C W → Bool
  is_not_leader_nor_observer s = not s.is_leader && not s.is_roi

  unfoldable pub live_method : State C W → Option (DoReconcile C W) → Method C W
  live_method s none =
      if s.is_leader then do_reconcile_kind s.reconciler.reconcile_kind else unknown
  live_method s (some observe) =
      if s.is_leader then do_reconcile_kind s.reconciler.reconcile_kind else do_observe_kind observe

  unfoldable pub deleted_method : State C W → Option (DoReconcile C W) → Method C W
  deleted_method s none = unknown
  deleted_method s (some finalize) = if s.is_leader then do_finalize_kind finalize else unknown

  unfoldable pub reconcile_method_for : State C W → YipYapSource C → Method C W
  unfolding live_method deleted_method
  reconcile_method_for s o =
      if not o.meta.is_deleted
      then live_method s s.roi
      else deleted_method s s.reconciler.finalize_kind
