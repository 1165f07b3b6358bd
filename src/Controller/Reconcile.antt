-- ===== src/Controller/Reconcile.antt =====
-- pkg/reconciler/yipyapsource/yipyapsource.go
pub mod Conditions
pub mod Failures
pub mod Availability
pub mod Writes
use knative_source.Base.{
  ℕ, Bool, not, ◌||◌, Option, none, some, List, [], ◌∷◌, if◌then◌else◌, Str, str_eq, ◌==◌,
}
use knative_source.Base.Bytes.{bytes}
use knative_source.Base.Result.{Result, ok, err}
use knative_source.Knative.{KReference, Destination}
use knative_source.Knative.Condition.{ConditionManager}
use knative_source.Api.Types.{YipYapSource}
use knative_source.Api.Lifecycle.{
  Status, initialize_conditions, mark_sink, mark_no_sink, mark_deployed, mark_not_deployed,
  mark_deploying,
}
use knative_source.Base.Dict.{Dict}
use knative_source.Controller.Deployment.{make_adapter_deployment}
use knative_source.Controller.Kube.{
  Deployment, DeploymentCondition, PodTemplate, TriState, condition_true, condition_false,
  condition_unknown,
}

-- The type of each entry; the source of each is empty.
abbrev pub known_ce_attributes : List Str
known_ce_attributes =
    bytes "run.yipyap.alert.fired.v1"
    ∷ bytes "run.yipyap.alert.acknowledged.v1"
    ∷ bytes "run.yipyap.alert.resolved.v1"
    ∷ bytes "run.yipyap.alert.escalated.v1"
    ∷ bytes "run.yipyap.monitor.up.v1"
    ∷ bytes "run.yipyap.monitor.down.v1"
    ∷ bytes "run.yipyap.monitor.degraded.v1"
    ∷ bytes "run.yipyap.monitor.heartbeat_missed.v1"
    ∷ bytes "run.yipyap.maintenance.started.v1"
    ∷ bytes "run.yipyap.maintenance.ended.v1"
    ∷ []

-- What the lister of Deployments answers.
pub data LookUp : Type 0 where
  found : Deployment → LookUp
  not_found : LookUp
  failed : Str → LookUp

-- The two requests that change a Deployment.
pub data Write : Type 0 where
  create update : Deployment → Write

-- The errors that `ReconcileKind` returns, one for each `fmt.Errorf`.
pub data ReconcileError : Type 0 where
  resolve_sink create_deployment get_deployment update_deployment : Str → ReconcileError

-- What a reconciliation leaves: the status of the source, its error, and the requests it made.
pub record Outcome (S : Type 0) : Type 0 where
  pub status : S
  pub error : Option ReconcileError
  pub writes : List Write

unfoldable pub resolved_ref : Str → KReference → KReference
resolved_ref namespace r = if r.namespace == [] then record r { namespace = namespace } else r

-- A deep copy of the sink, with the namespace of the source where its reference has none.
unfoldable pub destination_of : {C : Type 0} → YipYapSource C → Destination
unfolding resolved_ref
destination_of src = elim src.spec.sink.ref [
  | none ↦ src.spec.sink
  | some r ↦ record src.spec.sink { ref = some (resolved_ref src.meta.namespace r) }
]

module _ (m : ConditionManager) where
  -- The one switch of the loop, on the condition that is Available.
  unfoldable pub surface : DeploymentCondition → Status m → Status m
  surface c s = elim c.status [
    | condition_true ↦ mark_deployed m s
    | condition_false ↦ mark_not_deployed m c.reason c.message s
    | condition_unknown ↦ mark_deploying m c.reason c.message s
  ]

  unfoldable pub propagate_availability : List DeploymentCondition → Status m → Status m
  propagate_availability [] s = s
  propagate_availability (c ∷ cs) s =
      let rest = propagate_availability cs s in
      if not (c.type_name == bytes "Available") then rest else surface c s

-- The fields of the reconciler: `URIFromDestinationV1` of its resolver, which is given the source as
-- it is then, its lister, for a namespace and a name, what its client answers to a request, and its
-- image. Behind them, what `MakeAdapterDeployment` calls, and `equality.Semantic.DeepEqual` on
-- templates and on numbers of replicas.
pub record Reconciler (m : ConditionManager) : Type 0 where
  pub resolve : Destination → YipYapSource m.Conditions → Result Str (Option Str)
  pub lister : Str → Str → LookUp
  pub answer : Write → Result Str Deployment
  pub adapter_image : Str
  pub marshal_overrides : Dict Str Str → Option Str
  pub child_name : Str → Str → Str
  pub template_equal : PodTemplate → PodTemplate → Bool
  pub replicas_equal : Option ℕ → Option ℕ → Bool

module _ (m : ConditionManager) (r : Reconciler m) where
  open m use {Conditions}

  -- The end of `ReconcileKind`.
  finish : Status m → Deployment → List Write → Outcome (Status m)
  finish s current writes = record {
    status =
        propagate_availability m current.conditions (record s { deployment_name = current.name });
    error = none;
    writes = writes;
  }

  -- Behind a request: the error is marked with the reason.
  written :
      Status m → Str → (Str → ReconcileError) → Write → Result Str Deployment → Outcome (Status m)
  unfolding finish
  written s reason wrap w (err e) = record {
    status = mark_not_deployed m reason e s;
    error = some (wrap e);
    writes = w ∷ [];
  }
  written s reason wrap w (ok current) = finish s current (w ∷ [])

  unfoldable pub is_drifted : Deployment → Deployment → Bool
  is_drifted expected current =
      not (r.template_equal expected.template current.template)
      || not (r.replicas_equal expected.replicas current.replicas)

  unfoldable pub updated_deployment : Deployment → Deployment → Deployment
  updated_deployment expected current = record current {
    template = expected.template;
    replicas = expected.replicas;
  }

  reconcile_deployment : Status m → Deployment → LookUp → Outcome (Status m)
  unfolding written finish is_drifted updated_deployment
  reconcile_deployment s expected not_found =
      written s (bytes "CreateFailed") create_deployment (create expected)
        (r.answer (create expected))
  reconcile_deployment s expected (failed e) = record {
    status = s;
    error = some (get_deployment e);
    writes = [];
  }
  reconcile_deployment s expected (found current) =
      if is_drifted expected current
      then (let w = update (updated_deployment expected current) in
          written s (bytes "UpdateFailed") update_deployment w (r.answer w))
      else finish s current []

  -- The first three lines.
  unfoldable pub prepared : YipYapSource Conditions → YipYapSource Conditions
  prepared src = record src {
    status = record (initialize_conditions m src.status) {
      observed_generation = src.meta.generation;
      ce_attributes = known_ce_attributes;
    };
  }

  abbrev pub expected_deployment : YipYapSource Conditions → Option Str → Deployment
  expected_deployment src uri =
      make_adapter_deployment r.marshal_overrides r.child_name src uri r.adapter_image

  -- From the resolved sink on.
  reconcile_resolved : YipYapSource Conditions → Result Str (Option Str) → Outcome (Status m)
  unfolding reconcile_deployment
  reconcile_resolved src (err e) = record {
    status = mark_no_sink m (bytes "NotFound") e src.status;
    error = some (resolve_sink e);
    writes = [];
  }
  reconcile_resolved src (ok uri) =
      let marked = record src { status = mark_sink m uri src.status } in
      let expected = expected_deployment marked uri in
      reconcile_deployment marked.status expected (r.lister src.meta.namespace expected.name)

  unfoldable pub reconcile_kind : YipYapSource Conditions → Outcome (Status m)
  unfolding prepared reconcile_resolved destination_of
  reconcile_kind src = let p = prepared src in reconcile_resolved p (r.resolve (destination_of p) p)
