-- ===== src/Controller/Wiring/Wakes.antt =====
-- Which events wake the controller for a source.
use knative_source.Base.{
  ◌≡◌, ℕ, Option, none, some, List, [], ◌∷◌, Str, str_eq, ◌==◌, if◌then◌else◌,
}
use knative_source.Knative.Condition.{ConditionManager}
use knative_source.Api.Types.{YipYapSource}
use knative_source.Controller.Kube.{OwnerReference, DeploymentCondition, PodTemplate, Deployment}
use knative_source.Controller.Reconcile.{expected_deployment}
use knative_source.Controller.Wiring.{ControllerLib, EnvConfig, Wired}

-- `metav1.GetControllerOf`
abbrev pub controller_of : List OwnerReference → Option OwnerReference
controller_of [] = none
controller_of (o ∷ os) = let rest = controller_of os in if o.controller then some o else rest

-- What knative.dev/pkg says of its queue: an object is enqueued by its namespace and name, and so is
-- its controller, in the object's namespace; the filter passes what a controller of the kind owns.
pub record IsQueue (m : ConditionManager) (lib : ControllerLib m)
    (enqueue_key : Str → Str → lib.Queue → lib.Queue) : Type 0 where
  pub enqueues :
      (src : YipYapSource m.Conditions) (q : lib.Queue)
      → lib.enqueue src q ≡ enqueue_key src.meta.namespace src.meta.name q
  pub enqueues_controller :
      (d : Deployment) (o : OwnerReference) (q : lib.Queue)
      → controller_of d.owner_references ≡ some o
      → lib.enqueue_controller_of d q ≡ enqueue_key d.namespace o.owner_name q
  pub filters :
      (kind : Str) (d : Deployment) (o : OwnerReference)
      → controller_of d.owner_references ≡ some o
      → lib.filter_controller kind d ≡ (o.owner_kind == kind)

module _ (m : ConditionManager) (lib : ControllerLib m)
    (enqueue_key : Str → Str → lib.Queue → lib.Queue) (queue : IsQueue m lib enqueue_key) where
  -- What the controller does with a source and with its Deployment.
  pub record IsWired (env : EnvConfig) (ctl : Wired m lib) : Type 0 where
    pub image_kept : ctl.reconciler.adapter_image ≡ env.image
    pub wakes :
        (src : YipYapSource m.Conditions) (uri : Option Str) (template : PodTemplate)
        (replicas : Option ℕ) (conditions : List DeploymentCondition) (q : lib.Queue)
        → ctl.on_deployment
            (record (expected_deployment m ctl.reconciler src uri) {
              template = template;
              replicas = replicas;
              conditions = conditions;
            })
            q
          ≡ ctl.on_source src q
