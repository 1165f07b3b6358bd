-- ===== src/Informers.antt =====
-- The shared informer factory: pkg/client/informers/externalversions/factory.go. Its lock makes each
-- operation one step.
pub mod Steps
pub mod Once
pub mod Shared
pub mod Sources
use knative_source.Base.{
  Bool, true, false, not, Option, none, some, List, [], ◌∷◌, ◌++◌, contains, if◌then◌else◌, Str,
  str_eq, ◌==◌,
}
use knative_source.Base.Dict.{Dict, insert, lookup}
use knative_source.Base.Duration.{Duration}

-- The types of the client libraries: a client, a tweak of list options, a transform and an informer.
pub record Kinds : Type 1 where
  pub Client : Type 0
  pub Tweak : Type 0
  pub Transform : Type 0
  pub Informer : Type 0

-- A type (`reflect.Type`) is its name. `runs` lists the informers whose goroutine was started, in
-- order: the group of goroutines that the factory waits for.
pub record Factory (k : Kinds) : Type 0 where
  pub client : k.Client
  pub namespace : Str
  pub tweak_list_options : Option k.Tweak
  pub default_resync : Duration
  pub custom_resync : Dict Str Duration
  pub transform : Option k.Transform
  pub informers : Dict Str k.Informer
  pub started_informers : List Str
  pub shutting_down : Bool
  pub runs : List Str

-- The loop over the configuration.
set_resyncs : Dict Str Duration → Dict Str Duration → Dict Str Duration
set_resyncs [] m = m
set_resyncs ((t, v) ∷ config) m = set_resyncs config (insert t v m)

module _ (k : Kinds) where
  open k use {Client, Tweak, Transform, Informer}

  abbrev pub FactoryOption : Type 0
  FactoryOption = Factory k → Factory k

  unfoldable pub with_custom_resync_config : Dict Str Duration → FactoryOption
  unfolding set_resyncs
  with_custom_resync_config config f = record f {
    custom_resync = set_resyncs config f.custom_resync;
  }

  unfoldable pub with_tweak_list_options : Option Tweak → FactoryOption
  with_tweak_list_options tweak f = record f { tweak_list_options = tweak }

  unfoldable pub with_namespace : Str → FactoryOption
  with_namespace namespace f = record f { namespace = namespace }

  unfoldable pub with_transform : Option Transform → FactoryOption
  with_transform transform f = record f { transform = transform }

  apply_options : List FactoryOption → FactoryOption
  apply_options [] f = f
  apply_options (opt ∷ options) f = apply_options options (opt f)

  unfoldable pub new_factory : Client → Duration → List FactoryOption → Factory k
  unfolding apply_options
  new_factory client default_resync options = apply_options options (record {
    client = client;
    namespace = [];
    tweak_list_options = none;
    default_resync = default_resync;
    custom_resync = [];
    transform = none;
    informers = [];
    started_informers = [];
    shutting_down = false;
    runs = [];
  })

  -- `NewSharedInformerFactory`
  unfoldable pub new_shared_informer_factory : Client → Duration → Factory k
  unfolding new_factory
  new_shared_informer_factory client default_resync = new_factory client default_resync []

  -- `NewFilteredSharedInformerFactory`
  unfoldable pub new_filtered_shared_informer_factory :
      Client → Duration → Str → Option Tweak → Factory k
  unfolding new_factory with_namespace with_tweak_list_options
  new_filtered_shared_informer_factory client default_resync namespace tweak =
      new_factory client default_resync
        (with_namespace namespace ∷ with_tweak_list_options tweak ∷ [])

  start_one : Str → FactoryOption
  start_one t f =
      if not (contains f.started_informers t)
      then record f { runs = f.runs ++ (t ∷ []); started_informers = t ∷ f.started_informers }
      else f

  start_loop : Dict Str Informer → FactoryOption
  unfolding start_one
  start_loop [] f = f
  start_loop ((t, informer) ∷ rest) f = start_loop rest (start_one t f)

  start_unless : Bool → FactoryOption
  unfolding start_loop
  start_unless true f = f
  start_unless false f = start_loop f.informers f

  unfoldable pub start : FactoryOption
  unfolding start_unless
  start f = start_unless f.shutting_down f

  -- Up to the wait for the goroutines.
  unfoldable pub shutdown : FactoryOption
  shutdown f = record f { shutting_down = true }

  resync_period : Str → Factory k → Duration
  resync_period t f = elim (lookup t f.custom_resync) [ none ↦ f.default_resync | some d ↦ d ]

  -- From what the map has for the type. `new_func` makes an informer, and `set_transform` is its
  -- `SetTransform`.
  informer_from :
      (Option Transform → Informer → Informer)
      → Str
      → (Client → Duration → Informer)
      → Factory k
      → Option Informer
      → Informer × Factory k
  unfolding resync_period
  informer_from set_transform t new_func f (some informer) = (informer, f)
  informer_from set_transform t new_func f none =
      let informer = set_transform f.transform (new_func f.client (resync_period t f)) in
      (informer, record f { informers = insert t informer f.informers })

  unfoldable pub informer_for :
      (Option Transform → Informer → Informer)
      → Str
      → (Client → Duration → Informer)
      → Factory k
      → Informer × Factory k
  unfolding informer_from
  informer_for set_transform t new_func f =
      informer_from set_transform t new_func f (lookup t f.informers)

  -- The started informers, and for each whether its cache was synced before the channel closed.
  synced_loop : (Informer → Bool) → List Str → Dict Str Informer → Dict Str Bool
  synced_loop has_synced started [] = []
  synced_loop has_synced started ((t, informer) ∷ rest) =
      let res = synced_loop has_synced started rest in
      if contains started t then insert t (has_synced informer) res else res

  unfoldable pub wait_for_cache_sync : (Informer → Bool) → Factory k → Dict Str Bool
  unfolding synced_loop
  wait_for_cache_sync has_synced f = synced_loop has_synced f.started_informers f.informers
