-- ===== src/Informers/Sources/Generic.antt =====
-- The generic access to the informer of the sources, against the typed one.
use knative_source.Base.{
  ℕ, ◌≡◌, refl, ◌∙◌, ap, ◌⊎◌, inl, inr, true, false, none, some, str_eq, str_beq, str_beq_iff, ◌≢◌,
  Bool-cases, arith,
}
use knative_source.Base.Bytes.{bytes}
use knative_source.Base.Memory.{write, write_same}
use knative_source.Api.Registration.{scheme_group_version}
use knative_source.Informers.{informer_for}
use knative_source.Informers.Shared.{informer_for_shared}
use knative_source.Informers.Steps.{stays}
use knative_source.Knative.ListWatch.{InformerTypes, InformerLib}
use knative_source.Informers.Sources.{
  kinds, source_type, GenericInformer, GroupVersionResource, Factories, source_informer, informer,
  default_informer, is_sources, for_resource,
}

-- The one resource that `ForResource` knows.
abbrev pub sources_resource : GroupVersionResource
sources_resource = record {
  group = scheme_group_version.group;
  version = scheme_group_version.version;
  resource = bytes "yipyapsources";
}

module _ (k : InformerTypes) (lib : InformerLib k) where
  -- Whatever its settings, an informer of the factory that is asked for again is the same.
  informer_again :
      (p : ℕ) (m : Factories k)
      → let (i, m') = informer k lib (source_informer k p m) m in
        (informer k lib (source_informer k p m') m').0 ≡ i
  unfolding informer source_informer
  informer_again p m =
      let f = m.cell p in
      let v = source_informer k p m in
      let (i, f') =
        informer_for (kinds k) lib.set_transform source_type (default_informer k lib v) f in
      let m' = write p f' m in
      let v' = source_informer k p m' in
      ap
        (λ g.
          (informer_for (kinds k) lib.set_transform source_type (default_informer k lib v') g).0)
        (write_same p f' m)
      ∙ informer_for_shared (kinds k) lib.set_transform source_type (default_informer k lib v)
          (default_informer k lib v') f f' (stays f')

  is_sources_lem : is_sources k lib sources_resource ≡ true
  unfolding str_beq
  is_sources_lem = refl

  is_sources-sources : (r : GroupVersionResource) → is_sources k lib r ≡ true → r ≡ sources_resource
  is_sources-sources r h = ground (
    arith,
    str_beq_iff r.group scheme_group_version.group,
    str_beq_iff r.version scheme_group_version.version,
    str_beq_iff r.resource (bytes "yipyapsources"),
  )

  sources-is_sources :
      (r : GroupVersionResource) → is_sources k lib r ≡ false → r ≢ sources_resource
  sources-is_sources r h e = absurd (cc (h, ap (is_sources k lib) e, is_sources_lem))

  -- `ForResource` knows one resource, the sources of the group's version: the informer that it hands
  -- out for it is the one that the typed access hands out after. Any other resource is an error, and
  -- no factory changes.
  pub for_resource-informer :
      (p : ℕ) (r : GroupVersionResource) (m : Factories k)
      → let (found, m') = for_resource k lib p r m in
        ((g : GenericInformer k) × (r ≡ sources_resource)
          × (found ≡ some g)
          × ((informer k lib (source_informer k p m') m').0 ≡ g.informer))
        ⊎ ((r ≢ sources_resource) × (found ≡ none) × (m' ≡ m))
  unfolding for_resource
  for_resource-informer p r m = elim (Bool-cases (is_sources k lib r)) [
    | inl sources ↦
        let same = is_sources-sources r sources in
        rw sources (inl (_, same, refl, informer_again p m))
    | inr others ↦ let apart = sources-is_sources r others in rw others (inr (apart, refl, refl))
  ]
