-- ===== src/Informers/Sources.antt =====
-- The informer of the sources, and the ways to it: generic.go, sources/interface.go,
-- sources/v1alpha1/interface.go and sources/v1alpha1/yipyapsource.go below
-- pkg/client/informers/externalversions, and the listers in pkg/client/listers.
pub mod Generic
pub mod Own
use knative_source.Base.{
  ℕ, Bool, true, false, ◌&&◌, Option, none, some, Str, str_eq, ◌==◌, if◌then◌else◌,
}
use knative_source.Base.Bytes.{bytes}
use knative_source.Base.Duration.{Duration}
use knative_source.Base.Memory.{Memory, write}
use knative_source.Base.Result.{Result, ok, err}
use knative_source.Api.Registration.{GroupVersion, scheme_group_version}
use knative_source.Knative.ListWatch.{
  InformerTypes, ListOptions, Tweak, ListWatch, Indexers, by_namespace, InformerLib,
}
use knative_source.Informers.{Kinds, Factory, informer_for}

abbrev pub kinds : InformerTypes → Kinds
kinds k = record {
  Client = k.Client;
  Tweak = Tweak k;
  Transform = k.Transform;
  Informer = k.Informer;
}

-- `reflect.TypeOf(&YipYapSource{})`
abbrev pub source_type : Str
source_type = bytes "*v1alpha1.YipYapSource"

-- `yipYapSourceInformer`, whose factory is a pointer. The structs `group` and `version` have the same
-- fields.
pub record SourceInformer (k : InformerTypes) : Type 0 where
  pub factory : ℕ
  pub tweak_list_options : Option (Tweak k)
  pub namespace : Str

pub record Group (k : InformerTypes) : Type 0 where
  pub factory : ℕ
  pub namespace : Str
  pub tweak_list_options : Option (Tweak k)

pub record Version (k : InformerTypes) : Type 0 where
  pub factory : ℕ
  pub namespace : Str
  pub tweak_list_options : Option (Tweak k)

pub record GroupResource : Type 0 where
  pub group : Str
  pub resource : Str

-- `yipYapSourceLister`, and that of a namespace.
pub record SourceLister (k : InformerTypes) : Type 0 where
  pub informer : k.Informer
  pub resource : GroupResource
  pub namespace : Option Str

pub record GenericInformer (k : InformerTypes) : Type 0 where
  pub informer : k.Informer
  pub resource : GroupResource

pub record GroupVersionResource : Type 0 where
  pub group : Str
  pub version : Str
  pub resource : Str

-- `Resource` of register.go.
unfoldable pub resource_of : Str → GroupResource
resource_of name = record { group = scheme_group_version.group; resource = name }

module _ (k : InformerTypes) where
  -- The factories, which pointers share.
  abbrev pub Factories : Type 0
  Factories = Memory (Factory (kinds k))

  unfoldable pub tweaked : Option (Tweak k) → ListOptions k → ListOptions k
  tweaked none options = options
  tweaked (some tweak) options = tweak options

  -- `New` of the two interfaces, and their methods.
  unfoldable pub new_group : ℕ → Str → Option (Tweak k) → Group k
  new_group f namespace tweak = record {
    factory = f;
    namespace = namespace;
    tweak_list_options = tweak;
  }

  unfoldable pub new_version : ℕ → Str → Option (Tweak k) → Version k
  new_version f namespace tweak = record {
    factory = f;
    namespace = namespace;
    tweak_list_options = tweak;
  }

  unfoldable pub v1alpha1 : Group k → Version k
  unfolding new_version
  v1alpha1 g = new_version g.factory g.namespace g.tweak_list_options

  unfoldable pub yipyap_sources : Version k → SourceInformer k
  yipyap_sources v = record {
    factory = v.factory;
    namespace = v.namespace;
    tweak_list_options = v.tweak_list_options;
  }

  -- `Sources` of the factory at a pointer.
  unfoldable pub sources : ℕ → Factories → Group k
  unfolding new_group
  sources p m = new_group p (m.cell p).namespace (m.cell p).tweak_list_options

  -- `f.Sources().V1alpha1().YipYapSources()`
  unfoldable pub source_informer : ℕ → Factories → SourceInformer k
  unfolding sources v1alpha1 yipyap_sources
  source_informer p m = yipyap_sources (v1alpha1 (sources p m))

  unfoldable pub new_lister : k.Informer → SourceLister k
  unfolding resource_of
  new_lister informer = record {
    informer = informer;
    resource = resource_of (bytes "yipyapsource");
    namespace = none;
  }

  unfoldable pub lister_in : SourceLister k → Str → SourceLister k
  lister_in l namespace = record l { namespace = some namespace }

module _ (k : InformerTypes) (lib : InformerLib k) where
  open lib use {background, list_sources, watch_sources}

  unfoldable pub list_watch : k.Client → Str → Option (Tweak k) → ListWatch k
  unfolding tweaked
  list_watch client namespace tweak = record {
    list_func = λ options. list_sources client namespace background (tweaked k tweak options);
    watch_func = λ options. watch_sources client namespace background (tweaked k tweak options);
    list_with_context_func =
        λ ctx options. list_sources client namespace ctx (tweaked k tweak options);
    watch_func_with_context =
        λ ctx options. watch_sources client namespace ctx (tweaked k tweak options);
  }

  unfoldable pub new_filtered_informer :
      k.Client → Str → Duration → Indexers → Option (Tweak k) → k.Informer
  new_filtered_informer client namespace resync indexers tweak =
      lib.new_shared_index_informer (list_watch client namespace tweak) resync indexers

  unfoldable pub new_informer : k.Client → Str → Duration → Indexers → k.Informer
  new_informer client namespace resync indexers =
      new_filtered_informer client namespace resync indexers none

  unfoldable pub default_informer : SourceInformer k → k.Client → Duration → k.Informer
  default_informer v client resync =
      new_filtered_informer client v.namespace resync by_namespace v.tweak_list_options

  -- The call of the factory that the pointer leads to.
  abbrev pub informer_at :
      ℕ → (k.Client → Duration → k.Informer) → Factories k → k.Informer × Factories k
  informer_at p new_func m =
      let (i, f) = informer_for (kinds k) lib.set_transform source_type new_func (m.cell p) in
      (i, write p f m)

  -- `Informer` and `Lister`.
  unfoldable pub informer : SourceInformer k → Factories k → k.Informer × Factories k
  informer v m = informer_at v.factory (default_informer v) m

  unfoldable pub lister : SourceInformer k → Factories k → SourceLister k × Factories k
  unfolding informer new_lister
  lister v m = let (i, m') = informer v m in (new_lister k i, m')

  abbrev pub is_sources : GroupVersionResource → Bool
  is_sources r =
      r.group == scheme_group_version.group
      && r.version == scheme_group_version.version
      && r.resource == bytes "yipyapsources"

  -- `ForResource` of the factory at a pointer: `none` is the error that names the resource.
  unfoldable pub for_resource :
      ℕ → GroupVersionResource → Factories k → Option (GenericInformer k) × Factories k
  for_resource p r m =
      if is_sources r
      then (let (i, m') = informer (source_informer k p m) m in
          (
            some (record {
              informer = i;
              resource = record { group = r.group; resource = r.resource };
            }),
            m',
          ))
      else (none, m)
