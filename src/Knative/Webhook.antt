-- ===== src/Knative/Webhook.antt =====
-- What the webhook's process uses of knative.dev/pkg/webhook and knative.dev/pkg/injection/sharedmain.
use knative_source.Base.{
  ℕ, ◌≡◌, Bool, true, false, not, ◌&&◌, is_some, Option, none, some, List, [], ◌∷◌, ◌++◌, Str,
  str_eq, contains, if◌then◌else◌,
}
use knative_source.Base.Dict.{Dict, lookup}
use knative_source.Api.Registration.{GroupVersionKind, kind_eq}

-- `resourcesemantics.GenericCRD`: the methods of a pointer to an object.
pub record GenericCrd (Context Object FieldError : Type 0) : Type 0 where
  pub set_defaults : Context → Option Object → Option Object
  pub validate : Context → Object → FieldError

-- `webhook.Options`
pub record Options : Type 0 where
  pub service_name : Str
  pub port : ℕ
  pub secret_name : Str

-- The answer to a request of admission, with the object as it is patched.
pub data Answer (Object : Type 0) : Type 0 where
  refused : Answer Object
  allowed : Object → Answer Object

pub record WebhookTypes : Type 1 where
  pub Context : Type 0
  pub Watcher : Type 0
  -- `controller.Impl`
  pub Controller : Type 0
  pub Callback : Type 0
  -- `configmap.Constructors` has values of this type.
  pub Constructor : Type 0
  -- What runs of the main function.
  pub Server : Type 0

-- Whether no path occurs twice.
unfoldable pub are_distinct : List Str → Bool
are_distinct [] = true
are_distinct (p ∷ ps) = not (contains ps p) && are_distinct ps

module _ (k : WebhookTypes) (Object FieldError : Type 0) where
  abbrev pub Crds : Type 0
  Crds = Dict GroupVersionKind (GenericCrd k.Context Object FieldError)

  abbrev pub ControllerConstructor : Type 0
  ControllerConstructor = k.Context → k.Watcher → k.Controller

  -- The operations, and below them what is seen of their results: the path of a controller that
  -- answers requests of admission, its answer to the JSON of an object of a kind that is created, the
  -- decoding of JSON, with unknown fields disallowed or not, and the answer of a server at a path.
  pub record WebhookLib : Type 0 where
    pub new_context : k.Context
    pub with_options : k.Context → Options → k.Context
    pub new_certificates : ControllerConstructor
    pub new_defaulting :
        k.Context → Str → Str → Crds → (k.Context → k.Context) → Bool → k.Controller
    pub new_validation :
        k.Context
        → Str
        → Str
        → Crds
        → (k.Context → k.Context)
        → Bool
        → Dict GroupVersionKind k.Callback
        → k.Controller
    pub new_configmaps : k.Context → Str → Str → Dict Str k.Constructor → k.Controller
    pub logging_config_map_name : Str
    pub new_config_from_config_map : k.Constructor
    pub observability_config_map_name : Str
    pub parse : k.Constructor
    pub webhook_main : k.Context → Str → List ControllerConstructor → k.Server
    pub start : ControllerConstructor → k.Context → k.Controller
    pub path : k.Controller → Option Str
    pub admit : k.Controller → GroupVersionKind → Str → Answer Object
    pub decode : Bool → Str → Option Object
    pub serve : k.Server → Str → GroupVersionKind → Str → Answer Object

  module _ (lib : WebhookLib) where
    -- The paths of the controllers that answer requests of admission.
    unfoldable pub paths : k.Context → List ControllerConstructor → List Str
    paths ctx [] = []
    paths ctx (c ∷ cs) = elim (lib.path (lib.start c ctx)) [
      | none ↦ paths ctx cs
      | some p ↦ p ∷ paths ctx cs
    ]

    -- A constructor is called once, with a context and a watcher of the main function. A server whose
    -- context has options and whose paths differ answers at the path of a controller by it. The
    -- controllers that default and validate refuse a kind that they are not given and JSON that is
    -- not decoded; else they call the method of the kind with a context of their own, and answer by
    -- its result where that depends on no context. Validation asks the callback of the kind besides.
    pub record IsWebhookLib (is_nil : FieldError → Bool) : Type 0 where
      pub started :
          (c : ControllerConstructor) (ctx : k.Context)
          → (ctx' : k.Context) × (w : k.Watcher) × (lib.start c ctx ≡ c ctx' w)
      pub path-new_certificates :
          (ctx : k.Context) (w : k.Watcher) → lib.path (lib.new_certificates ctx w) ≡ none
      pub path-new_defaulting :
          (ctx : k.Context) (name path : Str) (types : Crds) (with_context : k.Context → k.Context)
          (strict : Bool)
          → lib.path (lib.new_defaulting ctx name path types with_context strict) ≡ some path
      pub path-new_validation :
          (ctx : k.Context) (name path : Str) (types : Crds) (with_context : k.Context → k.Context)
          (strict : Bool) (callbacks : Dict GroupVersionKind k.Callback)
          → lib.path (lib.new_validation ctx name path types with_context strict callbacks)
            ≡ some path
      pub path-new_configmaps :
          (ctx : k.Context) (name path : Str) (constructors : Dict Str k.Constructor)
          → lib.path (lib.new_configmaps ctx name path constructors) ≡ some path
      pub serve-webhook_main :
          (ctx : k.Context) (o : Options) (name path : Str)
          (before after : List ControllerConstructor) (c : ControllerConstructor)
          (g : GroupVersionKind) (raw : Str)
          → are_distinct (paths (lib.with_options ctx o) (before ++ c ∷ after)) ≡ true
          → lib.path (lib.start c (lib.with_options ctx o)) ≡ some path
          → lib.serve
              (lib.webhook_main (lib.with_options ctx o) name (before ++ c ∷ after))
              path
              g
              raw
            ≡ lib.admit (lib.start c (lib.with_options ctx o)) g raw
      pub admit-new_defaulting :
          (ctx : k.Context) (name path : Str) (types : Crds) (with_context : k.Context → k.Context)
          (strict : Bool) (g : GroupVersionKind) (raw : Str)
          (crd : GenericCrd k.Context Object FieldError) (y y' : Object)
          → lookup g types ≡ some crd
          → lib.decode strict raw ≡ some y
          → ((ctx' : k.Context) → crd.set_defaults ctx' (some y) ≡ some y')
          → lib.admit (lib.new_defaulting ctx name path types with_context strict) g raw
            ≡ allowed y'
      pub admit-new_defaulting-refused :
          (ctx : k.Context) (name path : Str) (types : Crds) (with_context : k.Context → k.Context)
          (strict : Bool) (g : GroupVersionKind) (raw : Str)
          → (is_some (lookup g types) && is_some (lib.decode strict raw)) ≡ false
          → lib.admit (lib.new_defaulting ctx name path types with_context strict) g raw ≡ refused
      pub admit-new_validation :
          (ctx : k.Context) (name path : Str) (types : Crds) (with_context : k.Context → k.Context)
          (strict : Bool) (callbacks : Dict GroupVersionKind k.Callback) (g : GroupVersionKind)
          (raw : Str) (crd : GenericCrd k.Context Object FieldError) (y : Object) (b : Bool)
          → lookup g types ≡ some crd
          → lookup g callbacks ≡ none
          → lib.decode strict raw ≡ some y
          → ((ctx' : k.Context) → is_nil (crd.validate ctx' y) ≡ b)
          → lib.admit (lib.new_validation ctx name path types with_context strict callbacks) g raw
            ≡ (if b then allowed y else refused)
      pub admit-new_validation-refused :
          (ctx : k.Context) (name path : Str) (types : Crds) (with_context : k.Context → k.Context)
          (strict : Bool) (callbacks : Dict GroupVersionKind k.Callback) (g : GroupVersionKind)
          (raw : Str)
          → (is_some (lookup g types) && is_some (lib.decode strict raw)) ≡ false
          → lib.admit (lib.new_validation ctx name path types with_context strict callbacks) g raw
            ≡ refused
