-- ===== src/Controller/Reconcile/Conditions.antt =====
-- The conditions that `ReconcileKind` leaves.
use knative_source.Base.{
  ◌≡◌, refl, ◌↔◌, inl, inr, true, Option, none, some, List, [], ◌∷◌, if◌then◌else◌, Str, str_eq,
  str_beq, ◌==◌, arith, Bool-cases, contains,
}
use knative_source.Base.Bytes.{bytes}
use knative_source.Base.Result.{Result, ok, err}
use knative_source.Knative.Condition.{
  ConditionManager, ConditionStatus, is_true, is_false, is_unknown, IsLiving, status_of,
}
use knative_source.Api.Types.{YipYapSource}
use knative_source.Api.Lifecycle.{
  Status, yipyap_dependents, condition_deployed, condition_sink_provided, mark_deployed,
  mark_not_deployed, mark_deploying, mark_no_sink, mark_sink, is_ready,
}
use knative_source.Api.Lifecycle.Ready.{
  Mark, sink, no_sink, deployed, not_deployed, deploying, apply, apply-IsSummed, IsSummed, Holds,
  IsSummed-ready,
}
use knative_source.Controller.Kube.{
  Deployment, DeploymentCondition, TriState, condition_true, condition_false, condition_unknown,
}
use knative_source.Controller.Reconcile.{
  Reconciler, Write, create, update, LookUp, found, not_found, failed, surface,
  propagate_availability, reconcile_kind, reconcile_resolved, reconcile_deployment, written, finish,
  prepared, is_drifted, updated_deployment,
}

-- The first condition of a Deployment that is Available.
unfoldable pub available : List DeploymentCondition → Option DeploymentCondition
available [] = none
available (c ∷ cs) =
    let rest = available cs in if c.type_name == bytes "Available" then some c else rest

abbrev pub status_word : TriState → ConditionStatus
status_word condition_true = is_true
status_word condition_false = is_false
status_word condition_unknown = is_unknown

abbrev mark_word : Str → Str → TriState → Mark
mark_word reason message condition_true = deployed
mark_word reason message condition_false = not_deployed reason message
mark_word reason message condition_unknown = deploying reason message

abbrev mark_of : DeploymentCondition → Mark
mark_of c = mark_word c.reason c.message c.status

dependent_deployed : contains yipyap_dependents condition_deployed ≡ true
unfolding str_beq
dependent_deployed = refl

module _ (m : ConditionManager) (living : IsLiving yipyap_dependents m) where
  surface_lem :
      (c : DeploymentCondition) (s : Status m)
      → status_of m condition_deployed (surface m c s).conditions ≡ some (status_word c.status)
  unfolding surface mark_deployed mark_not_deployed mark_deploying
  surface_lem c s = ground (
    arith,
    living.get-mark_true condition_deployed s.conditions dependent_deployed,
    living.get-mark_false condition_deployed c.reason c.message s.conditions dependent_deployed,
    living.get-mark_unknown condition_deployed c.reason c.message s.conditions dependent_deployed,
  )

  surface-apply : (c : DeploymentCondition) (s : Status m) → surface m c s ≡ apply m (mark_of c) s
  unfolding surface apply
  surface-apply c s =
      elim c.status
        as (λ t.
          elim t [
            | condition_true ↦ mark_deployed m s
            | condition_false ↦ mark_not_deployed m c.reason c.message s
            | condition_unknown ↦ mark_deploying m c.reason c.message s
          ]
          ≡ apply m (mark_word c.reason c.message t) s) [
            | condition_true ↦ refl
            | condition_false ↦ refl
            | condition_unknown ↦ refl
          ]

  -- The Deployed condition is what the first Available condition of the Deployment says, and stays
  -- what it was if the Deployment has none.
  pub propagate_availability_lem :
      (cs : List DeploymentCondition) (s : Status m)
      → status_of m condition_deployed (propagate_availability m cs s).conditions
        ≡ elim (available cs) [
          | none ↦ status_of m condition_deployed s.conditions
          | some c ↦ some (status_word c.status)
        ]
  unfolding propagate_availability available
  propagate_availability_lem [] s = refl
  propagate_availability_lem (c ∷ cs) s = elim (Bool-cases (c.type_name == bytes "Available")) [
    | inl hit ↦ rw hit (surface_lem c s)
    | inr miss ↦ rw miss (propagate_availability_lem cs s)
  ]

  propagate_availability-IsSummed :
      (cs : List DeploymentCondition) (s : Status m)
      → IsSummed m living s
      → IsSummed m living (propagate_availability m cs s)
  unfolding propagate_availability
  propagate_availability-IsSummed [] s h = h
  propagate_availability-IsSummed (c ∷ cs) s h =
      elim (Bool-cases (c.type_name == bytes "Available")) [
        | inl hit ↦ rw (hit, surface-apply c s) (apply-IsSummed m living (mark_of c) s)
        | inr miss ↦ rw miss (propagate_availability-IsSummed cs s h)
      ]

  module _ (r : Reconciler m) where
    written-IsSummed :
        (s : Status m) (reason : Str) (wrap : Str → _) (w : Write) (a : Result Str Deployment)
        → IsSummed m living s
        → IsSummed m living (written m r s reason wrap w a).status
    unfolding written finish mark_not_deployed apply
    written-IsSummed s reason wrap w (err e) h = apply-IsSummed m living (not_deployed reason e) s
    written-IsSummed s reason wrap w (ok d) h = propagate_availability-IsSummed d.conditions _ h

    reconcile_deployment-IsSummed :
        (s : Status m) (expected : Deployment) (found_it : LookUp)
        → IsSummed m living s
        → IsSummed m living (reconcile_deployment m r s expected found_it).status
    unfolding reconcile_deployment finish
    reconcile_deployment-IsSummed s expected not_found h =
        written-IsSummed s _ _ _ (r.answer (create expected)) h
    reconcile_deployment-IsSummed s expected (failed e) h = h
    reconcile_deployment-IsSummed s expected (found current) h =
        let w = update (updated_deployment m r expected current) in
        elim (Bool-cases (is_drifted m r expected current)) [
          | inl drifted ↦ rw drifted (written-IsSummed s _ _ w (r.answer w) h)
          | inr in_sync ↦ rw in_sync (propagate_availability-IsSummed current.conditions _ h)
        ]

    reconcile_resolved-IsSummed :
        (src : YipYapSource m.Conditions) (resolved : Result Str (Option Str))
        → IsSummed m living (reconcile_resolved m r src resolved).status
    unfolding reconcile_resolved mark_no_sink mark_sink apply
    reconcile_resolved-IsSummed src (err e) =
        apply-IsSummed m living (no_sink (bytes "NotFound") e) src.status
    reconcile_resolved-IsSummed src (ok uri) =
        reconcile_deployment-IsSummed _ _ _ (apply-IsSummed m living (sink uri) src.status)

    -- Whatever branch a reconciliation takes, the source is ready behind it exactly when its
    -- SinkProvided and its Deployed conditions are both True.
    pub is_ready-reconcile_kind :
        (src : YipYapSource m.Conditions)
        → let s = (reconcile_kind m r src).status in
          (is_ready m s ≡ true) ↔ (Holds m condition_sink_provided s × Holds m condition_deployed s)
    unfolding reconcile_kind
    is_ready-reconcile_kind src =
        IsSummed-ready m living _ (reconcile_resolved-IsSummed (prepared m r src) _)
