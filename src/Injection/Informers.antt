-- ===== src/Injection/Informers.antt =====
-- How clients, factories and informers are put into a context and taken from it: client/client.go,
-- informers/factory/factory.go, informers/factory/filtered/filtered_factory.go and
-- informers/sources/v1alpha1/yipyapsource with its filtered variant, below pkg/client/injection.
pub mod Selectors
pub mod Filtered
pub mod Watches
use knative_source.Base.{
  ℕ, Bool, true, false, Option, none, some, List, [], ◌∷◌, ◌++◌, Str, str_eq, ◌==◌, if◌then◌else◌,
}
use knative_source.Base.Duration.{Duration}
use knative_source.Base.Memory.{Memory, alloc}
use knative_source.Base.Result.{Result, ok, err, ◌>>=◌}
use knative_source.Informers.{
  Factory, FactoryOption, with_namespace, with_tweak_list_options, new_factory,
}
use knative_source.Knative.ListWatch.{InformerTypes, InformerLib, ListOptions, Tweak}
use knative_source.Informers.Sources.{kinds, SourceInformer, Factories, source_informer, informer}

-- The values of a context by their keys, the newest first. A factory is a pointer.
pub data Entry (k : InformerTypes) : Type 0 where
  client_entry : k.Client → Entry k
  factory_entry : ℕ → Entry k
  informer_entry : SourceInformer k → Entry k
  labels_entry : List Str → Entry k
  filtered_factory_entry : Str → ℕ → Entry k
  filtered_informer_entry : Str → SourceInformer k → Entry k

-- A context, with what `HasNamespaceScope`, `GetNamespaceScope`, `GetResyncPeriod` and `GetConfig`
-- of knative.dev/pkg read from it.
pub record Context (k : InformerTypes) : Type 0 where
  pub entries : List (Entry k)
  pub namespace_scope : Option Str
  pub resync_period : Duration
  pub has_config : Bool

-- The panics of the program: what could not be fetched from the context.
pub data Panic : Type 0 where
  no_client_outside : Panic
  no_client : Panic
  no_factory : Panic
  no_informer : Panic
  no_labels : Panic
  no_filtered_factory : Str → Panic
  no_filtered_informer : Str → Panic

abbrev pub found {ℓ} : {A : Type ℓ} → Panic → Option A → Result Panic A
found p none = err p
found p (some a) = ok a

module _ (k : InformerTypes) where
  -- `context.WithValue`
  abbrev pub with_value : Entry k → Context k → Context k
  with_value e ctx = record ctx { entries = e ∷ ctx.entries }

  -- `withClientFromConfig`, from what `NewForConfigOrDie` makes: `none` is its panic.
  unfoldable pub with_client_from_config : Option k.Client → Context k → Option (Context k)
  with_client_from_config none ctx = none
  with_client_from_config (some c) ctx = some (with_value (client_entry c) ctx)

  client_in : List (Entry k) → Option k.Client
  client_in [] = none
  client_in (client_entry c ∷ es) = some c
  client_in (e ∷ es) = client_in es

  factory_in : List (Entry k) → Option ℕ
  factory_in [] = none
  factory_in (factory_entry f ∷ es) = some f
  factory_in (e ∷ es) = factory_in es

  informer_in : List (Entry k) → Option (SourceInformer k)
  informer_in [] = none
  informer_in (informer_entry i ∷ es) = some i
  informer_in (e ∷ es) = informer_in es

  labels_in : List (Entry k) → Option (List Str)
  labels_in [] = none
  labels_in (labels_entry ss ∷ es) = some ss
  labels_in (e ∷ es) = labels_in es

  pub filtered_factory_in : Str → List (Entry k) → Option ℕ
  filtered_factory_in selector [] = none
  filtered_factory_in selector (filtered_factory_entry s f ∷ es) =
      if s == selector then some f else filtered_factory_in selector es
  filtered_factory_in selector (e ∷ es) = filtered_factory_in selector es

  pub filtered_informer_in : Str → List (Entry k) → Option (SourceInformer k)
  filtered_informer_in selector [] = none
  filtered_informer_in selector (filtered_informer_entry s i ∷ es) =
      if s == selector then some i else filtered_informer_in selector es
  filtered_informer_in selector (e ∷ es) = filtered_informer_in selector es

  -- The functions `Get`.
  unfoldable pub get_client : Context k → Result Panic k.Client
  unfolding client_in
  get_client ctx =
      found (if ctx.has_config then no_client else no_client_outside) (client_in ctx.entries)

  unfoldable pub get_factory : Context k → Result Panic ℕ
  unfolding factory_in
  get_factory ctx = found no_factory (factory_in ctx.entries)

  unfoldable pub get_informer : Context k → Result Panic (SourceInformer k)
  unfolding informer_in
  get_informer ctx = found no_informer (informer_in ctx.entries)

  unfoldable pub get_labels : Context k → Result Panic (List Str)
  unfolding labels_in
  get_labels ctx = found no_labels (labels_in ctx.entries)

  unfoldable pub get_filtered_factory : Context k → Str → Result Panic ℕ
  unfolding filtered_factory_in
  get_filtered_factory ctx selector =
      found (no_filtered_factory selector) (filtered_factory_in selector ctx.entries)

  unfoldable pub get_filtered_informer : Context k → Str → Result Panic (SourceInformer k)
  unfolding filtered_informer_in
  get_filtered_informer ctx selector =
      found (no_filtered_informer selector) (filtered_informer_in selector ctx.entries)

  unfoldable pub with_selectors : List Str → Context k → Context k
  with_selectors selectors ctx = with_value (labels_entry selectors) ctx

  abbrev pub scope_options : Context k → List (FactoryOption (kinds k))
  scope_options ctx = elim ctx.namespace_scope [
    | none ↦ []
    | some namespace ↦ with_namespace (kinds k) namespace ∷ []
  ]

  -- `withInformerFactory`
  unfoldable pub with_informer_factory :
      Context k → Factories k → Result Panic (Context k × Factories k)
  with_informer_factory ctx m = do
    c ← get_client ctx
    let (f, m') = alloc (new_factory (kinds k) c ctx.resync_period (scope_options ctx)) m
    ok (with_value (factory_entry f) ctx, m')

  -- The tweak that sets the selector.
  unfoldable pub selects : Str → Tweak k
  selects selector options = record options { label_selector = selector }

  abbrev pub filtered_options : Str → Context k → List (FactoryOption (kinds k))
  filtered_options selector ctx =
      scope_options ctx ++ (with_tweak_list_options (kinds k) (some (selects selector)) ∷ [])

  unfoldable pub filtered_factory_loop :
      k.Client → List Str → Context k → Factories k → Context k × Factories k
  filtered_factory_loop c [] ctx m = (ctx, m)
  filtered_factory_loop c (selector ∷ selectors) ctx m =
      let (f, m') =
        alloc (new_factory (kinds k) c ctx.resync_period (filtered_options selector ctx)) m in
      filtered_factory_loop c selectors (with_value (filtered_factory_entry selector f) ctx) m'

  -- `withInformerFactory` of the filtered factories.
  unfoldable pub with_filtered_factories :
      Context k → Factories k → Result Panic (Context k × Factories k)
  unfolding filtered_factory_loop
  with_filtered_factories ctx m = do
    c ← get_client ctx
    selectors ← get_labels ctx
    ok (filtered_factory_loop c selectors ctx m)

module _ (k : InformerTypes) (lib : InformerLib k) where
  -- `withInformer`
  unfoldable pub with_informer :
      Context k → Factories k → Result Panic (Context k × k.Informer × Factories k)
  with_informer ctx m = do
    f ← get_factory k ctx
    let inf = source_informer k f m
    let (i, m') = informer k lib inf m
    ok (with_value k (informer_entry inf) ctx, i, m')

  unfoldable pub filtered_informer_loop :
      List Str
      → Context k
      → List k.Informer
      → Factories k
      → Result Panic (Context k × List k.Informer × Factories k)
  filtered_informer_loop [] ctx infs m = ok (ctx, infs, m)
  filtered_informer_loop (selector ∷ selectors) ctx infs m = do
    f ← get_filtered_factory k ctx selector
    let inf = source_informer k f m
    let (i, m') = informer k lib inf m
    filtered_informer_loop selectors (with_value k (filtered_informer_entry selector inf) ctx)
        (infs ++ (i ∷ [])) m'

  -- `withInformer` of the filtered informers.
  unfoldable pub with_filtered_informers :
      Context k → Factories k → Result Panic (Context k × List k.Informer × Factories k)
  unfolding filtered_informer_loop
  with_filtered_informers ctx m = do
    selectors ← get_labels k ctx
    filtered_informer_loop selectors ctx [] m
