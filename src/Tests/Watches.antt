-- ===== src/Tests/Watches.antt =====
-- Runs of the theorems on the informers of the sources.
use knative_source.Base.{◌≡◌, ◌≢◌, ◌⊎◌, refl, none, some, true, [], ◌∷◌, Str}
use knative_source.Base.Bytes.{bytes}
use knative_source.Base.Duration.{minute}
use knative_source.Base.Int.{pos}
use knative_source.Base.Result.{◌>>=◌}
use knative_source.Informers.{new_factory}
use knative_source.Knative.ListWatch.{InformerTypes, InformerLib}
use knative_source.Informers.Sources.{
  GenericInformer, kinds, Factories, source_informer, informer, for_resource,
}
use knative_source.Informers.Sources.Generic.{sources_resource, for_resource-informer}
use knative_source.Injection.Informers.{
  Context, client_entry, labels_entry, get_client, get_labels, with_filtered_factories,
  with_filtered_informers,
}
use knative_source.Injection.Informers.Watches.{Watches, with_filtered_informers-Watches}

-- A call is its client, its namespace and its selector; an informer is the call that lists.
abbrev types : InformerTypes
types = record {
  Client = Str;
  Context = Unit {0};
  OtherOptions = Unit {0};
  Call = Str × Str × Str;
  Transform = Unit {0};
  Informer = Str × Str × Str;
}

abbrev lib : InformerLib types
lib = record {
  background = tt;
  list_sources = λ client namespace ctx options. (client, namespace, options.label_selector);
  watch_sources = λ client namespace ctx options. (client, namespace, options.label_selector);
  new_shared_index_informer =
      λ lw resync indexers. lw.list_func (record { label_selector = []; others = tt });
  set_transform = λ t i. i;
}

-- No factory yet: each cell is one without informers.
abbrev memory : Factories types
memory = record { next = 0; cell = λ a. new_factory (kinds types) (bytes "c") (pos minute) [] }

abbrev context : Context types
context = record {
  entries = labels_entry (bytes "app=a" ∷ bytes "app=b" ∷ []) ∷ client_entry (bytes "c") ∷ [];
  namespace_scope = some (bytes "ns");
  resync_period = pos minute;
  has_config = true;
}

with_filtered_informers-Watches_example :
    Watches types lib (bytes "c") context (bytes "app=a" ∷ bytes "app=b" ∷ []) (
      with_filtered_factories types context memory >>= λ (ctx', m').
      with_filtered_informers types lib ctx' m')
unfolding get_client get_labels
with_filtered_informers-Watches_example =
    with_filtered_informers-Watches types lib context memory refl refl

for_resource-informer_example :
    let (found, m') = for_resource types lib 0 sources_resource memory in
    ((g : GenericInformer types) × (sources_resource ≡ sources_resource)
      × (found ≡ some g)
      × ((informer types lib (source_informer types 0 m') m').0 ≡ g.informer))
    ⊎ ((sources_resource ≢ sources_resource) × (found ≡ none) × (m' ≡ memory))
for_resource-informer_example = for_resource-informer types lib 0 sources_resource memory
