-- ===== src/Tests/Controller.antt =====
-- Runs of the theorems on the controller.
use knative_source.Base.{
  ◌≡◌, refl, ◌↔◌, true, false, Option, none, some, [], Str, str_eq, str_beq, nat_eq,
}
use knative_source.Base.Bytes.{bytes}
use knative_source.Base.Result.{Result, ok, err}
use knative_source.Knative.Condition.{Condition, is_true, status_of}
use knative_source.Api.Types.{YipYapSource}
use knative_source.Api.Lifecycle.{condition_sink_provided, condition_deployed, is_ready}
use knative_source.Api.Lifecycle.Ready.{Holds}
use knative_source.Controller.Kube.{Deployment}
use knative_source.Controller.Reconcile.{
  resolve_sink, destination_of, prepared, reconcile_kind, create, expected_deployment,
}
use knative_source.Controller.Reconcile.Conditions.{is_ready-reconcile_kind}
use knative_source.Controller.Reconcile.Failures.{reconcile_kind_failed}
use knative_source.Controller.Reconcile.Availability.{
  IsCurrent, Surfaces, looked_up, reconcile_kind-Surfaces, reconcile_kind_stale,
}
use knative_source.Tests.Conditions.{Conditions, manager, living}
use knative_source.Tests.Source.{fresh_cluster, stored, lost, reconciler, source, source_with}

is_ready-reconcile_kind_example :
    let s = (reconcile_kind manager reconciler source).status in
    (is_ready manager s ≡ true)
    ↔ (Holds manager condition_sink_provided s × Holds manager condition_deployed s)
is_ready-reconcile_kind_example = is_ready-reconcile_kind manager living reconciler source

no_error : (reconcile_kind manager reconciler source).error ≡ none
unfolding reconcile_kind
no_error = refl

reconcile_kind-Surfaces_example :
    (uri : Option Str) × (reconciler.resolve
        (destination_of source)
        (prepared manager reconciler source)
      ≡ ok uri)
    × ((current : Deployment) × IsCurrent manager living reconciler
          (looked_up manager living reconciler source uri)
          (reconcile_kind manager reconciler source).writes
          current
        × Surfaces manager living reconciler
            (status_of manager condition_deployed (manager.initialize source.status.conditions))
            (reconcile_kind manager reconciler source).status
            current)
reconcile_kind-Surfaces_example = reconcile_kind-Surfaces manager living reconciler source no_error

answered : Result Str Deployment → Deployment
answered (ok d) = d
answered (err e) = expected_deployment manager reconciler source none

lost_error : (reconcile_kind manager lost source).error ≡ some (resolve_sink (bytes "no sink"))
unfolding reconcile_kind
lost_error = refl

reconcile_kind_failed_example : is_ready manager (reconcile_kind manager lost source).status ≡ false
reconcile_kind_failed_example =
    reconcile_kind_failed manager living lost source (resolve_sink (bytes "no sink")) refl
      lost_error

abbrev good : Condition
good = record { status = is_true; reason = []; message = [] }

abbrev was_deployed : YipYapSource Conditions
was_deployed = source_with (record { sink = some good; deployed = some good; ready = some good })

good_before : manager.get condition_deployed was_deployed.status.conditions ≡ some good
unfolding str_beq
good_before = refl

reconcile_kind_stale_example :
    status_of manager condition_deployed
      (reconcile_kind manager fresh_cluster was_deployed).status.conditions
    ≡ some is_true
reconcile_kind_stale_example =
    reconcile_kind_stale manager living fresh_cluster was_deployed (some (bytes "http://sink"))
      (record (stored (
        create (
          expected_deployment manager fresh_cluster (prepared manager fresh_cluster was_deployed)
            (some (bytes "http://sink"))))) { conditions = [] })
      good refl refl refl refl good_before
