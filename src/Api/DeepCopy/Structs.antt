-- ===== src/Api/DeepCopy/Structs.antt =====
-- DeepCopyInto of the filter, the spec, the status and the source.
use knative_source.Base.{◌≡◌, refl, ap, Option, none, some, List, Str}
use knative_source.Base.Dict.{Dict}
use knative_source.Base.Int.{ℤ}
use knative_source.Base.Memory.{
  SameOn, Grows, IsCopy, IsCopy-plain, IsDeepCopy, IsDeepCopy-both, IsDeepCopy-struct,
}
use knative_source.Knative.{Destination}
use knative_source.Api.Types.{
  ObjectMeta, YipYapSourceFilter, YipYapSourceSpec, YipYapSourceStatus, YipYapSource,
}
use knative_source.Api.Cells.{
  Parts, TypeMeta, FilterCell, SpecCell, StatusCell, SourceCell, Mem, filters,
}
use knative_source.Api.DeepCopy.{
  PartCopies, filter_deep_copy_into, spec_deep_copy_into, copy_time, status_deep_copy_into,
  source_deep_copy_into,
}
use knative_source.Api.DeepCopy.Slices.{view_strings, IsStoredStrings, strings-IsDeepCopy}
use knative_source.Api.DeepCopy.Pointers.{view_pointer, IsStoredPointer, deep_copy-IsDeepCopy}

-- What is assumed of the structs of other packages: their values in a memory, and that their methods
-- copy deeply. `C` is the type of the conditions, `L` that of the values of a `metav1.ListMeta`.
pub record PartLaws (k : Parts) (parts : PartCopies k) (C L : Type 0) : Type 1 where
  pub view_meta : Mem k → k.Meta → ObjectMeta
  pub view_source_spec : Mem k → k.SourceSpec → Destination × Option (Dict Str Str)
  pub view_source_status : Mem k → k.SourceStatus → C × ℤ × Option Str × List Str
  pub view_time : Mem k → k.TimeRef → Str
  pub view_list_meta : Mem k → k.ListMeta → L
  pub IsStoredMeta : Mem k → k.Meta → Type 0
  pub IsStoredSourceSpec : Mem k → k.SourceSpec → Type 0
  pub IsStoredSourceStatus : Mem k → k.SourceStatus → Type 0
  pub IsStoredTime : Mem k → k.TimeRef → Type 0
  pub IsStoredListMeta : Mem k → k.ListMeta → Type 0
  pub meta : IsDeepCopy view_meta IsStoredMeta parts.meta
  pub source_spec : IsDeepCopy view_source_spec IsStoredSourceSpec parts.source_spec
  pub source_status : IsDeepCopy view_source_status IsStoredSourceStatus parts.source_status
  pub time : IsDeepCopy view_time IsStoredTime parts.time
  pub list_meta : IsDeepCopy view_list_meta IsStoredListMeta parts.list_meta

module _ (k : Parts) where
  abbrev pub view_filter : Mem k → FilterCell → YipYapSourceFilter
  view_filter m f = record {
    types = view_strings k m f.types;
    monitor_ids = view_strings k m f.monitor_ids;
    severities = view_strings k m f.severities;
  }

  abbrev pub IsStoredFilter : Mem k → FilterCell → Type 0
  IsStoredFilter m f =
      (IsStoredStrings k m f.types × IsStoredStrings k m f.monitor_ids)
      × IsStoredStrings k m f.severities

  filter-IsDeepCopy : IsDeepCopy view_filter IsStoredFilter (filter_deep_copy_into k)
  unfolding filter_deep_copy_into
  filter-IsDeepCopy =
      IsDeepCopy-struct (λ (f : FilterCell). ((f.types, f.monitor_ids), f.severities))
        (λ f ((a, b), c). record { types = a; monitor_ids = b; severities = c })
        (λ f ((a, b), c). record { types = a; monitor_ids = b; severities = c }) _ _ _ (λ f s. refl)
        (λ f s v. refl)
        (IsDeepCopy-both _ _ _ _ _ _
          (IsDeepCopy-both _ _ _ _ _ _ (strings-IsDeepCopy k) (strings-IsDeepCopy k))
          (strings-IsDeepCopy k))

module _ (k : Parts) (parts : PartCopies k) {C L : Type 0} (laws : PartLaws k parts C L) where
  abbrev pub view_spec : Mem k → SpecCell k → YipYapSourceSpec
  view_spec m s = record {
    sink = (laws.view_source_spec m s.source_spec).0;
    ce_overrides = (laws.view_source_spec m s.source_spec).1;
    api_key_ref = s.api_key_ref;
    base_url = s.base_url;
    filter = view_pointer k (filters k) (view_filter k) m s.filter;
    mode = s.mode;
    service_account_name = s.service_account_name;
  }

  abbrev pub IsStoredSpec : Mem k → SpecCell k → Type 0
  IsStoredSpec m s =
      laws.IsStoredSourceSpec m s.source_spec
      × IsStoredPointer k (filters k) (IsStoredFilter k) m s.filter

  spec-IsDeepCopy : IsDeepCopy view_spec IsStoredSpec (spec_deep_copy_into k parts)
  unfolding spec_deep_copy_into
  spec-IsDeepCopy =
      IsDeepCopy-struct (λ (s : SpecCell k). (s.source_spec, s.filter))
        (λ s (a, b). record s { source_spec = a; filter = b })
        (λ s ((sink, overrides), b). record {
          sink = sink;
          ce_overrides = overrides;
          api_key_ref = s.api_key_ref;
          base_url = s.base_url;
          filter = b;
          mode = s.mode;
          service_account_name = s.service_account_name;
        })
        _ _ _ (λ s p. refl) (λ s p v. refl)
        (IsDeepCopy-both _ _ _ _ _ _ laws.source_spec (
          deep_copy-IsDeepCopy k (filters k) (λ f. refl) (view_filter k) (IsStoredFilter k)
            (filter_deep_copy_into k) (filter-IsDeepCopy k)))

  abbrev pub view_last_time : Mem k → Option k.TimeRef → Option Str
  view_last_time m none = none
  view_last_time m (some t) = some (laws.view_time m t)

  abbrev pub IsStoredLastTime : Mem k → Option k.TimeRef → Type 0
  IsStoredLastTime m none = Unit
  IsStoredLastTime m (some t) = laws.IsStoredTime m t

  time-IsDeepCopy : IsDeepCopy view_last_time IsStoredLastTime (copy_time k parts)
  unfolding copy_time
  time-IsDeepCopy = record { stable = stable; stored = stored; copies = copies }
    where
      stable :
          (m g : Mem k) (t : Option k.TimeRef)
          → IsStoredLastTime m t
          → SameOn 0 m.next g m
          → view_last_time g t ≡ view_last_time m t
      stable m g none st same = refl
      stable m g (some t) st same = ap some (laws.time.stable m g t st same)

      stored :
          (m g : Mem k) (t : Option k.TimeRef)
          → IsStoredLastTime m t
          → Grows m g
          → IsStoredLastTime g t
      stored m g none st grows = tt
      stored m g (some t) st grows = laws.time.stored m g t st grows

      copies :
          (m : Mem k) (t : Option k.TimeRef)
          → IsStoredLastTime m t
          → IsCopy view_last_time m t (copy_time k parts t m)
      copies m none st = IsCopy-plain view_last_time m none (λ g. refl)
      copies m (some t) st =
          let c = laws.time.copies m t st in
          record { grows = c.grows; keeps = λ g same. ap some (c.keeps g same) }

  abbrev pub view_status : Mem k → StatusCell k → YipYapSourceStatus C
  view_status m s =
      let (conditions, generation, uri, attributes) = laws.view_source_status m s.source_status in
      record {
        conditions = conditions;
        observed_generation = generation;
        sink_uri = uri;
        ce_attributes = attributes;
        deployment_name = s.deployment_name;
        last_event_time = view_last_time m s.last_event_time;
        event_count = s.event_count;
      }

  abbrev pub IsStoredStatus : Mem k → StatusCell k → Type 0
  IsStoredStatus m s =
      laws.IsStoredSourceStatus m s.source_status × IsStoredLastTime m s.last_event_time

  status-IsDeepCopy : IsDeepCopy view_status IsStoredStatus (status_deep_copy_into k parts)
  unfolding status_deep_copy_into
  status-IsDeepCopy =
      IsDeepCopy-struct (λ (s : StatusCell k). (s.source_status, s.last_event_time))
        (λ s (a, b). record s { source_status = a; last_event_time = b })
        (λ s ((conditions, generation, uri, attributes), b). record {
          conditions = conditions;
          observed_generation = generation;
          sink_uri = uri;
          ce_attributes = attributes;
          deployment_name = s.deployment_name;
          last_event_time = b;
          event_count = s.event_count;
        })
        _ _ _ (λ s p. refl) (λ s p v. refl)
        (IsDeepCopy-both _ _ _ _ _ _ laws.source_status time-IsDeepCopy)

  -- A source with its type, which the values of the API leave out.
  abbrev pub view_source : Mem k → SourceCell k → TypeMeta × YipYapSource C
  view_source m s = (
    s.type_meta,
    record {
      meta = laws.view_meta m s.meta;
      spec = view_spec m s.spec;
      status = view_status m s.status;
    },
  )

  abbrev pub IsStoredSource : Mem k → SourceCell k → Type 0
  IsStoredSource m s =
      (laws.IsStoredMeta m s.meta × IsStoredSpec m s.spec) × IsStoredStatus m s.status

  pub source-IsDeepCopy : IsDeepCopy view_source IsStoredSource (source_deep_copy_into k parts)
  unfolding source_deep_copy_into
  source-IsDeepCopy =
      IsDeepCopy-struct (λ (s : SourceCell k). ((s.meta, s.spec), s.status))
        (λ s ((a, b), c). record s { meta = a; spec = b; status = c })
        (λ s ((a, b), c). (s.type_meta, record { meta = a; spec = b; status = c })) _ _ _
        (λ s p. refl) (λ s p v. refl)
        (IsDeepCopy-both _ _ _ _ _ _ (IsDeepCopy-both _ _ _ _ _ _ laws.meta spec-IsDeepCopy)
          status-IsDeepCopy)
