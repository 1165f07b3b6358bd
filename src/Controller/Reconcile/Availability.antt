-- ===== src/Controller/Reconcile/Availability.antt =====
-- Which Deployment `ReconcileKind` surfaces, and when it leaves the source not ready.
use knative_source.Base.{
  ◌≡◌, refl, ◌∙◌, ap, ◌⊎◌, inl, inr, true, false, Option, none, some, List, [], ◌∷◌, Str, str_eq,
  str_beq, ◌==◌, arith, Bool-cases, contains,
}
use knative_source.Base.Bytes.{bytes}
use knative_source.Base.Result.{Result, ok, err, Result-cases}
use knative_source.Knative.Condition.{
  Condition, ConditionManager, ConditionStatus, IsLiving, status_of,
}
use knative_source.Api.Types.{YipYapSource}
use knative_source.Api.Lifecycle.{
  Status, yipyap_dependents, condition_deployed, condition_sink_provided, mark_deployed,
  mark_not_deployed, mark_deploying, mark_sink, initialize_conditions,
}
use knative_source.Api.Lifecycle.Ready.{}
use knative_source.Controller.Kube.{Deployment, DeploymentCondition}
use knative_source.Controller.Reconcile.{
  Reconciler, Write, create, update, LookUp, found, not_found, failed, Outcome, surface,
  propagate_availability, reconcile_kind, reconcile_resolved, reconcile_deployment, written, finish,
  prepared, destination_of, expected_deployment, is_drifted, updated_deployment,
}
use knative_source.Controller.Reconcile.Conditions.{
  available, status_word, propagate_availability_lem,
}
use knative_source.Controller.Deployment.{make_adapter_deployment}
use mathlib.Core.Path.{subst}
use knative_source.Controller.Reconcile.{ReconcileError}

deployed_dependent : contains yipyap_dependents condition_deployed ≡ true
unfolding str_beq
deployed_dependent = refl

sink_not_deployed : (condition_sink_provided == condition_deployed) ≡ false
unfolding str_beq
sink_not_deployed = refl

module _ (m : ConditionManager) (living : IsLiving yipyap_dependents m) (r : Reconciler m) where
  -- `current` is what the lister found, with no request made, or the answer to the one request.
  abbrev pub IsCurrent : LookUp → List Write → Deployment → Type 0
  IsCurrent looked writes current =
      ((looked ≡ found current) × (writes ≡ []))
      ⊎ ((w : Write) × (writes ≡ w ∷ []) × (r.answer w ≡ ok current))

  -- The name and the Deployed condition of a status are those of a Deployment, or, for a Deployment
  -- with no Available condition, the Deployed condition is the one before.
  abbrev pub Surfaces : Option ConditionStatus → Status m → Deployment → Type 0
  Surfaces before after current =
      (after.deployment_name ≡ current.name)
      × (status_of m condition_deployed after.conditions ≡ elim (available current.conditions) [
        | none ↦ before
        | some c ↦ some (status_word c.status)
      ])

  abbrev Settles : Option ConditionStatus → LookUp → Outcome (Status m) → Type 0
  Settles before looked o =
      (current : Deployment) × IsCurrent looked o.writes current × Surfaces before o.status current

  propagate_name :
      (cs : List DeploymentCondition) (s : Status m)
      → (propagate_availability m cs s).deployment_name ≡ s.deployment_name
  unfolding propagate_availability surface mark_deployed mark_not_deployed mark_deploying
  propagate_name [] s = refl
  propagate_name (c ∷ cs) s = ground (arith, propagate_name cs s)

  finish-Surfaces :
      (s : Status m) (current : Deployment) (writes : List Write)
      → Surfaces
          (status_of m condition_deployed s.conditions)
          (finish m r s current writes).status
          current
  unfolding finish
  finish-Surfaces s current writes = (
    propagate_name current.conditions _,
    propagate_availability_lem m living current.conditions _,
  )

  written-Settles :
      (s : Status m) (reason : Str) (wrap : Str → ReconcileError) (w : Write) (looked : LookUp)
      (a : Result Str Deployment)
      → r.answer w ≡ a
      → (written m r s reason wrap w a).error ≡ none
      → Settles (status_of m condition_deployed s.conditions) looked (written m r s reason wrap w a)
  unfolding written finish
  written-Settles s reason wrap w looked (err e) h no_error = ground arith
  written-Settles s reason wrap w looked (ok d) h succeeded =
      (d, inr (w, refl, h), finish-Surfaces s d (w ∷ []))

  reconcile_deployment-Settles :
      (s : Status m) (expected : Deployment) (looked : LookUp)
      → (reconcile_deployment m r s expected looked).error ≡ none
      → Settles
          (status_of m condition_deployed s.conditions)
          looked
          (reconcile_deployment m r s expected looked)
  unfolding reconcile_deployment
  reconcile_deployment-Settles s expected not_found =
      written-Settles s _ _ (create expected) not_found _ refl
  reconcile_deployment-Settles s expected (failed e) = λ h. ground arith
  reconcile_deployment-Settles s expected (found current) =
      let w = update (updated_deployment m r expected current) in
      elim (Bool-cases (is_drifted m r expected current)) [
        | inl drifted ↦ rw drifted (written-Settles s _ _ w (found current) _ refl)
        | inr in_sync ↦
            rw in_sync
              (λ h. (current, inl (refl, unfold finish in refl), finish-Surfaces s current []))
      ]

  mark_sink-deployed :
      (uri : Option Str) (s : Status m)
      → status_of m condition_deployed (mark_sink m uri s).conditions
        ≡ status_of m condition_deployed s.conditions
  unfolding mark_sink
  mark_sink-deployed uri s = ground (
    arith,
    living.other-mark_true condition_sink_provided condition_deployed s.conditions
        deployed_dependent sink_not_deployed,
    living.other-mark_unknown condition_sink_provided condition_deployed (bytes "SinkEmpty")
        (bytes "Sink has no URI") s.conditions deployed_dependent sink_not_deployed,
  )

  abbrev pub looked_up : YipYapSource m.Conditions → Option Str → LookUp
  looked_up src uri = r.lister src.meta.namespace (expected_deployment m r src uri).name

  reconcile_resolved-Settles :
      (src : YipYapSource m.Conditions) (uri : Option Str)
      → (reconcile_resolved m r src (ok uri)).error ≡ none
      → Settles
          (status_of m condition_deployed src.status.conditions)
          (looked_up src uri)
          (reconcile_resolved m r src (ok uri))
  unfolding reconcile_resolved make_adapter_deployment
  reconcile_resolved-Settles src uri h =
      subst (λ before. Settles before (looked_up src uri) (reconcile_resolved m r src (ok uri)))
        (mark_sink-deployed uri src.status)
        (reconcile_deployment-Settles (mark_sink m uri src.status) _ _ h)

  -- A reconciliation without an error has resolved the sink. The source then names the Deployment
  -- that the lister found, with no request made, or that answers the one request, and its Deployed
  -- condition is what that Deployment's first Available condition says. Where the Deployment has
  -- none, the condition is what the initialisation left.
  pub reconcile_kind-Surfaces :
      (src : YipYapSource m.Conditions)
      → (reconcile_kind m r src).error ≡ none
      → (uri : Option Str) × (r.resolve (destination_of src) (prepared m r src) ≡ ok uri)
        × ((current : Deployment) × IsCurrent
              (looked_up src uri)
              (reconcile_kind m r src).writes
              current
            × Surfaces
                (status_of m condition_deployed (m.initialize src.status.conditions))
                (reconcile_kind m r src).status
                current)
  unfolding reconcile_kind prepared initialize_conditions destination_of make_adapter_deployment
  reconcile_kind-Surfaces src =
      elim (Result-cases (r.resolve (destination_of src) (prepared m r src))) [
        | inl (e, missing) ↦ rw missing (λ h. ground arith)
        | inr (uri, resolved) ↦
            rw resolved (λ h. (uri, refl, reconcile_resolved-Settles (prepared m r src) uri h))
      ]

  -- A Deployment that was deployed before and is created anew, with no condition yet, leaves the
  -- source deployed: the old condition stays.
  pub reconcile_kind_stale :
      (src : YipYapSource m.Conditions) (uri : Option Str) (created : Deployment) (k : Condition)
      → r.resolve (destination_of src) (prepared m r src) ≡ ok uri
      → looked_up src uri ≡ not_found
      → r.answer (create (expected_deployment m r (prepared m r src) uri)) ≡ ok created
      → created.conditions ≡ []
      → m.get condition_deployed src.status.conditions ≡ some k
      → status_of m condition_deployed (reconcile_kind m r src).status.conditions ≡ some k.status
  unfolding reconcile_kind reconcile_resolved reconcile_deployment written finish prepared
      initialize_conditions destination_of make_adapter_deployment propagate_availability
  reconcile_kind_stale src uri created k resolved missing answered fresh before =
      rw (resolved, missing, answered, fresh)
        (mark_sink-deployed uri (prepared m r src).status
          ∙ ap (λ c. elim c [ none ↦ none | some c' ↦ some c'.status ])
              (living.initialize_set condition_deployed src.status.conditions before))
