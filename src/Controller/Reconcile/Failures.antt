-- ===== src/Controller/Reconcile/Failures.antt =====
-- The errors of `ReconcileKind`.
use knative_source.Base.{
  ◌≡◌, refl, ap, ◌⊎◌, inl, inr, Bool, true, false, Option, none, some, Str, str_eq, str_beq, arith,
  Bool-cases, contains,
}
use knative_source.Base.Bytes.{bytes}
use knative_source.Base.Result.{Result, ok, err}
use knative_source.Knative.Condition.{ConditionManager, is_false, IsLiving, status_of}
use knative_source.Api.Types.{YipYapSource}
use knative_source.Api.Lifecycle.{
  Status, yipyap_dependents, condition_deployed, condition_sink_provided, mark_not_deployed,
  mark_no_sink, is_ready,
}
use knative_source.Api.Lifecycle.Ready.{}
use knative_source.Controller.Kube.{Deployment}
use knative_source.Controller.Reconcile.{
  Reconciler, Write, create, update, LookUp, found, not_found, failed, reconcile_kind,
  reconcile_resolved, reconcile_deployment, written, finish, prepared, is_drifted,
  updated_deployment,
}
use knative_source.Controller.Reconcile.Conditions.{is_ready-reconcile_kind}
use knative_source.Controller.Reconcile.{
  ReconcileError, resolve_sink, create_deployment, get_deployment, update_deployment,
}

-- The errors that the source's conditions show.
abbrev pub is_marked : ReconcileError → Bool
is_marked (get_deployment e) = false
is_marked (resolve_sink e) = true
is_marked (create_deployment e) = true
is_marked (update_deployment e) = true

sink_dependent : contains yipyap_dependents condition_sink_provided ≡ true
unfolding str_beq
sink_dependent = refl

deployed_dependent : contains yipyap_dependents condition_deployed ≡ true
unfolding str_beq
deployed_dependent = refl

module _ (m : ConditionManager) (living : IsLiving yipyap_dependents m) (r : Reconciler m) where
  ShowsFalse : Status m → Type 0
  ShowsFalse s =
      (status_of m condition_sink_provided s.conditions ≡ some is_false)
      ⊎ (status_of m condition_deployed s.conditions ≡ some is_false)

  written-ShowsFalse :
      (s : Status m) (reason : Str) (wrap : Str → ReconcileError) (w : Write)
      (a : Result Str Deployment) (e : ReconcileError)
      → (written m r s reason wrap w a).error ≡ some e
      → ShowsFalse (written m r s reason wrap w a).status
  unfolding written finish ShowsFalse mark_not_deployed
  written-ShowsFalse s reason wrap w (err x) e h = inr (
      ap (λ c. elim c [ none ↦ none | some c' ↦ some c'.status ])
        (living.get-mark_false condition_deployed reason x s.conditions deployed_dependent))
  written-ShowsFalse s reason wrap w (ok d) e h = ground arith

  reconcile_deployment-ShowsFalse :
      (s : Status m) (expected : Deployment) (looked : LookUp) (e : ReconcileError)
      → is_marked e ≡ true
      → (reconcile_deployment m r s expected looked).error ≡ some e
      → ShowsFalse (reconcile_deployment m r s expected looked).status
  unfolding reconcile_deployment finish
  reconcile_deployment-ShowsFalse s expected not_found e marked =
      written-ShowsFalse s _ _ _ (r.answer (create expected)) e
  reconcile_deployment-ShowsFalse s expected (failed x) e marked = λ h. ground arith
  reconcile_deployment-ShowsFalse s expected (found current) e marked =
      let w = update (updated_deployment m r expected current) in
      elim (Bool-cases (is_drifted m r expected current)) [
        | inl drifted ↦ rw drifted (written-ShowsFalse s _ _ w (r.answer w) e)
        | inr in_sync ↦ rw in_sync (λ h. ground arith)
      ]

  reconcile_resolved-ShowsFalse :
      (src : YipYapSource m.Conditions) (resolved : Result Str (Option Str)) (e : ReconcileError)
      → is_marked e ≡ true
      → (reconcile_resolved m r src resolved).error ≡ some e
      → ShowsFalse (reconcile_resolved m r src resolved).status
  unfolding reconcile_resolved mark_no_sink ShowsFalse
  reconcile_resolved-ShowsFalse src (err x) e marked h = inl (
      ap (λ c. elim c [ none ↦ none | some c' ↦ some c'.status ])
        (living.get-mark_false condition_sink_provided (bytes "NotFound") x src.status.conditions
          sink_dependent))
  reconcile_resolved-ShowsFalse src (ok uri) e marked h =
      reconcile_deployment-ShowsFalse _ _ _ e marked h

  -- A source is not ready behind a reconciliation that fails, unless it fails at the lister: a sink
  -- that does not resolve and a request that is refused are in the conditions.
  pub reconcile_kind_failed :
      (src : YipYapSource m.Conditions) (e : ReconcileError)
      → is_marked e ≡ true
      → (reconcile_kind m r src).error ≡ some e
      → is_ready m (reconcile_kind m r src).status ≡ false
  unfolding reconcile_kind ShowsFalse
  reconcile_kind_failed src e marked h = ground (
    arith,
    is_ready-reconcile_kind m living r src,
    reconcile_resolved-ShowsFalse (prepared m r src) _ e marked h,
  )
