-- ===== src/Controller/Reconcile/Writes.antt =====
-- The requests of `ReconcileKind`.
use knative_source.Base.{◌≡◌, false, str_eq}
use knative_source.Base.Result.{Result, ok}
use knative_source.Knative.Condition.{ConditionManager, IsLiving}
use knative_source.Api.Types.{YipYapSource}
use knative_source.Api.Lifecycle.{Status, yipyap_dependents}
use knative_source.Api.Lifecycle.Ready.{}
use knative_source.Controller.Kube.{Deployment}
use knative_source.Controller.Reconcile.{
  Reconciler, Write, create, update, LookUp, found, Outcome, destination_of, is_drifted,
}
use knative_source.Controller.Reconcile.Availability.{IsCurrent}

-- The Deployment that a request asks for.
abbrev pub wanted : Write → Deployment
wanted (create d) = d
wanted (update d) = d

-- What is relied on of the cluster: equality is reflexive, what a request is answered with has the
-- template and the number of replicas that were asked for, and the resolver reads no more of the
-- source than its destination.
pub record IsStable (m : ConditionManager) (living : IsLiving yipyap_dependents m)
    (r : Reconciler m) : Type 0 where
  pub kept : (w : Write) (d : Deployment) → r.answer w ≡ ok d → is_drifted m r (wanted w) d ≡ false
  pub resolve_same :
      (src src' : YipYapSource m.Conditions)
      → src.spec ≡ src'.spec
      → r.resolve (destination_of src) src ≡ r.resolve (destination_of src) src'

-- The reconciler once the lister finds a Deployment.
abbrev pub finding : {m : ConditionManager} → Reconciler m → Deployment → Reconciler m
finding r current = record r { lister = λ _ _. found current }

module _ (m : ConditionManager) (living : IsLiving yipyap_dependents m) (r : Reconciler m)
    (stable : IsStable m living r) where
  abbrev InSync : Deployment → LookUp → Outcome (Status m) → Type 0
  InSync expected looked o =
      (current : Deployment) × IsCurrent m living r looked o.writes current
      × (is_drifted m r expected current ≡ false)
