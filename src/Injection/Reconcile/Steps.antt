-- ===== src/Injection/Reconcile/Steps.antt =====
-- The steps at the start and at the end of `Reconcile`.
use knative_source.Base.{◌≡◌, refl, true, Option, none, some, Str, is_some}
use knative_source.Base.Result.{ok}
use knative_source.Api.Types.{YipYapSource}
use knative_source.Injection.Interface.{
  EventType, Event, reconciler_event, wrapped_event, skip_event, requeue_event, conflict_event,
  error_event, ReconcilerImpl,
}
use knative_source.Injection.State.{State, new_state, is_not_leader_nor_observer}
use knative_source.Injection.Reconcile.{run_state, run_found, report}

module _ {C W : Type 0} (r : ReconcilerImpl C W) where
  -- The state of a run.
  unfoldable pub state_of : Str → Str → Str → State C W
  state_of key namespace name = record {
    key = key;
    namespace = namespace;
    name = name;
    reconciler = r.reconciler;
    roi = r.reconciler.observe_kind;
    is_roi = is_some r.reconciler.observe_kind;
    is_leader = r.is_leader_for namespace name;
  }

  pub new_state_lem :
      {key namespace name : Str}
      → r.split_key key ≡ some (namespace, name)
      → new_state key r ≡ ok (state_of key namespace name)
  unfolding new_state state_of
  new_state_lem h = rw (h, new_state) refl

  pub run_state_leader :
      (s : State C W) (w : W)
      → s.is_leader ≡ true
      → run_state r (ok s) w ≡ run_found r s (r.lister s.namespace s.name) w
  unfolding run_state is_not_leader_nor_observer
  run_state_leader s w h = rw h refl

  -- Reporting changes nothing of a part of the world that recorded events leave alone.
  module _ {V : Type 0} (view : W → V)
      (recorded : (o : YipYapSource C) (t : EventType) (reason message : Str) (w : W)
        → view (r.record_event o t reason message w) ≡ view w) where
    pub report-view :
        (o : YipYapSource C) (event : Option Event) (w : W) → view (report r o event w).1 ≡ view w
    unfolding report
    report-view o none w = refl
    report-view o (some (reconciler_event t reason message)) w = recorded o t reason message w
    report-view o (some (wrapped_event t reason message)) w = recorded o t reason message w
    report-view o (some (skip_event m)) w = refl
    report-view o (some (requeue_event m)) w = refl
    report-view o (some (conflict_event m)) w = refl
    report-view o (some (error_event m)) w = recorded o _ _ m w
