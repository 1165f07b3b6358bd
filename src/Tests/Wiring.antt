-- ===== src/Tests/Wiring.antt =====
-- Runs of the theorems on the wiring of the controller.
use knative_source.Base.{false, none, some, List, ◌∷◌, Str, str_eq, ◌==◌}
use knative_source.Controller.Wiring.{ControllerLib}
use knative_source.Controller.Wiring.Wakes.{controller_of}
use knative_source.Tests.Conditions.{manager}
use knative_source.Tests.Source.{reconciler}

abbrev Key : Type 0
Key = Str × Str

abbrev enqueue_key : Str → Str → List Key → List Key
enqueue_key namespace name q = (namespace, name) ∷ q

abbrev lib : ControllerLib manager
lib = record {
  Queue = List Key;
  Store = Unit {0};
  Demote = Unit {0};
  enqueue = λ src q. enqueue_key src.meta.namespace src.meta.name q;
  enqueue_controller_of = λ d q. elim (controller_of d.owner_references) [
    | none ↦ q
    | some o ↦ enqueue_key d.namespace o.owner_name q
  ];
  filter_controller = λ kind d. elim (controller_of d.owner_references) [
    | none ↦ false
    | some o ↦ o.owner_kind == kind
  ];
  resolve = reconciler.resolve;
  lister = reconciler.lister;
  answer = reconciler.answer;
  marshal_overrides = reconciler.marshal_overrides;
  child_name = reconciler.child_name;
  template_equal = reconciler.template_equal;
  replicas_equal = reconciler.replicas_equal;
}
