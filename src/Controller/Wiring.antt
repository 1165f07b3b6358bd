-- ===== src/Controller/Wiring.antt =====
-- pkg/reconciler/yipyapsource/controller.go
pub mod Wakes
use knative_source.Base.{Bool, true, ℕ, Option, none, some, List, [], ◌∷◌, Str, if◌then◌else◌}
use knative_source.Base.Bytes.{bytes}
use knative_source.Base.Dict.{Dict}
use knative_source.Base.Result.{Result}
use knative_source.Knative.{Destination}
use knative_source.Knative.Condition.{ConditionManager}
use knative_source.Api.Types.{YipYapSource}
use knative_source.Controller.Kube.{Deployment, PodTemplate}
use knative_source.Controller.Reconcile.{LookUp, Write, Reconciler}
use knative_source.Injection.Options.{Impl, new_impl}

-- The libraries: the resolver that a tracker makes, the lister and the client, the work queue with
-- `Enqueue`, `EnqueueControllerOf` and `FilterController` for a kind, and what the other fields of
-- the reconciler stand for.
pub record ControllerLib (m : ConditionManager) : Type 1 where
  pub Queue : Type 0
  pub Store : Type 0
  pub Demote : Type 0
  pub enqueue : YipYapSource m.Conditions → Queue → Queue
  pub enqueue_controller_of : Deployment → Queue → Queue
  pub filter_controller : Str → Deployment → Bool
  pub resolve : Destination → YipYapSource m.Conditions → Result Str (Option Str)
  pub lister : Str → Str → LookUp
  pub answer : Write → Result Str Deployment
  pub marshal_overrides : Dict Str Str → Option Str
  pub child_name : Str → Str → Str
  pub template_equal : PodTemplate → PodTemplate → Bool
  pub replicas_equal : Option ℕ → Option ℕ → Bool

-- `envConfig`
pub record EnvConfig : Type 0 where
  pub image : Str

-- The reconciler, what `NewImpl` makes of no options, and the handlers of the two informers, each the
-- same for an addition, an update and a deletion.
pub record Wired (m : ConditionManager) (lib : ControllerLib m) : Type 0 where
  pub reconciler : Reconciler m
  pub impl : Impl lib.Store lib.Demote m.Conditions
  pub on_source : YipYapSource m.Conditions → lib.Queue → lib.Queue
  pub on_deployment : Deployment → lib.Queue → lib.Queue

module _ (m : ConditionManager) (lib : ControllerLib m) where
  new_reconciler_of : EnvConfig → Reconciler m
  new_reconciler_of env = record {
    resolve = lib.resolve;
    lister = lib.lister;
    answer = lib.answer;
    adapter_image = env.image;
    marshal_overrides = lib.marshal_overrides;
    child_name = lib.child_name;
    template_equal = lib.template_equal;
    replicas_equal = lib.replicas_equal;
  }

  -- `cache.FilteringResourceEventHandler` with the filter and the handler of the Deployments.
  filtered_handler : Deployment → lib.Queue → lib.Queue
  filtered_handler d q =
      if lib.filter_controller (bytes "YipYapSource") d then lib.enqueue_controller_of d q else q

  wired : EnvConfig → Option (Impl lib.Store lib.Demote m.Conditions) → Option (Wired m lib)
  unfolding new_reconciler_of filtered_handler
  wired env none = none
  wired env (some impl) = some (record {
    reconciler = new_reconciler_of env;
    impl = impl;
    on_source = lib.enqueue;
    on_deployment = filtered_handler;
  })

  -- `NewController`, from what `envconfig.Process` makes of the environment: `none` is an error there,
  -- and the end of the process in the result.
  unfoldable pub new_controller : Option EnvConfig → Option (Wired m lib)
  unfolding wired
  new_controller none = none
  new_controller (some env) = wired env (new_impl [])
