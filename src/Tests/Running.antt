-- ===== src/Tests/Running.antt =====
-- A run of the theorem on the controller below the generated reconciler.
use knative_source.Base.{
  Bool, true, false, ◌&&◌, ℕ, Option, none, some, List, [], ◌++◌, Str, str_eq, nat_beq, nat_eq,
  if◌then◌else◌,
}
use knative_source.Base.Bytes.{bytes}
use knative_source.Base.Result.{ok}
use knative_source.Knative.Condition.{
  ConditionStatus, is_true, is_false, is_unknown, status_of, condition_ready,
}
use knative_source.Api.Types.{YipYapSourceStatus}
use knative_source.Api.Lifecycle.{condition_sink_provided, condition_deployed}
use knative_source.Controller.Reconcile.{ReconcileError, Write}
use knative_source.Controller.Running.{reconcile_call}
use knative_source.Injection.Interface.{ReconcilerImpl}
use knative_source.Injection.Reconcile.Status.{attempts}
use knative_source.Tests.Conditions.{Conditions, manager, living}
use knative_source.Tests.Injection.{sets}
use knative_source.Tests.Source.{reconciler, source}

-- The status in the server, and the requests for Deployments.
abbrev World : Type 0
World = YipYapSourceStatus Conditions × List Write

abbrev perform : List Write → World → World
perform writes w = (w.0, w.1 ++ writes)

abbrev text : ReconcileError → Str
text e = bytes "failed"

abbrev code : Option ConditionStatus → ℕ
code none = 0
code (some is_true) = 1
code (some is_false) = 2
code (some is_unknown) = 3

abbrev decode : ℕ → Option ConditionStatus
decode n =
    if nat_beq n 0
    then none
    else if nat_beq n 1
    then some is_true
    else if nat_beq n 2
    then some is_false
    else some is_unknown

abbrev same_at : Str → Conditions → Conditions → Bool
same_at t c d = nat_beq (code (status_of manager t c)) (code (status_of manager t d))

abbrev status_equal : YipYapSourceStatus Conditions → YipYapSourceStatus Conditions → Bool
status_equal s t =
    same_at condition_sink_provided s.conditions t.conditions
    && same_at condition_deployed s.conditions t.conditions
    && same_at condition_ready s.conditions t.conditions

abbrev impl : ReconcilerImpl Conditions World
impl = record {
  client = record {
    get = λ namespace name w. (ok (record source { status = w.0 }), w);
    update_status = λ o w. (none, (o.status, w.1));
    patch = λ namespace name p w. ((source, none), w);
  };
  reconciler = record {
    reconcile_kind = reconcile_call manager living perform text reconciler;
    finalize_kind = none;
    observe_kind = none;
    observe_deletion = none;
  };
  finalizer_name = bytes "yipyapsources.sources.yipyap.run";
  use_server_side_apply_for_finalizers = false;
  finalizer_field_manager = [];
  force_apply_finalizers = false;
  skip_status_updates = false;
  sets = sets;
  split_key = λ key. some (bytes "ns", key);
  is_leader_for = λ namespace name. true;
  lister = λ namespace name. ok source;
  record_event = λ o t reason message w. w;
  retry_update_conflicts = attempts 4 0;
  object_kind = λ o. none;
  status_equal = status_equal;
  pre_process = λ o. o;
  post_process = λ o original. o;
}
