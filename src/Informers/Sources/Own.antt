-- ===== src/Informers/Sources/Own.antt =====
-- The informer that a factory makes for the sources, by its own settings.
use knative_source.Base.{◌≡◌, refl, ap, ◌⊎◌, inl, inr, Option, none, some, [], Str, str_eq, eq_refl}
use knative_source.Base.Dict.{lookup, lookup-insert}
use knative_source.Base.Duration.{Duration}
use knative_source.Informers.{Factory, informer_for, informer_from, resync_period}
use knative_source.Knative.ListWatch.{InformerTypes, InformerLib, Tweak, by_namespace}
use knative_source.Informers.Sources.{
  kinds, source_type, SourceInformer, new_filtered_informer, default_informer,
}

module _ (k : InformerTypes) (lib : InformerLib k) where
  -- The informer of a client in a namespace, under a tweak.
  abbrev pub informer_of :
      k.Client → Str → Duration → Option (Tweak k) → Option k.Transform → k.Informer
  informer_of client namespace resync tweak transform =
      lib.set_transform transform
        (new_filtered_informer k lib client namespace resync by_namespace tweak)

  -- A factory with these settings, whose informer of the sources is theirs if it has one.
  pub record HasSettings (client : k.Client) (namespace : Str) (resync : Duration)
      (tweak : Option (Tweak k)) (f : Factory (kinds k)) : Type 0 where
    pub client_kept : f.client ≡ client
    pub namespace_kept : f.namespace ≡ namespace
    pub resync_kept : f.default_resync ≡ resync
    pub tweak_kept : f.tweak_list_options ≡ tweak
    pub no_transform : f.transform ≡ none
    pub no_custom : f.custom_resync ≡ []
    pub own :
        (lookup source_type f.informers ≡ none)
        ⊎ (lookup source_type f.informers ≡ some (informer_of client namespace resync tweak none))

  module _ (client : k.Client) (namespace : Str) (resync : Duration) (tweak : Option (Tweak k))
      (v : SourceInformer k) (same_namespace : v.namespace ≡ namespace)
      (same_tweak : v.tweak_list_options ≡ tweak) (f : Factory (kinds k))
      (h : HasSettings client namespace resync tweak f) where
    resync-default : resync_period (kinds k) source_type f ≡ resync
    unfolding resync_period lookup
    resync-default = rw (h.no_custom, resync_period) h.resync_kept

    made-own :
        lib.set_transform f.transform
          (default_informer k lib v f.client (resync_period (kinds k) source_type f))
        ≡ informer_of client namespace resync tweak none
    unfolding default_informer
    made-own = cc (h.client_kept, resync-default, h.no_transform, same_namespace, same_tweak)

    from-own :
        (o : Option k.Informer)
        → (o ≡ none) ⊎ (o ≡ some (informer_of client namespace resync tweak none))
        → (informer_from (kinds k) lib.set_transform source_type (default_informer k lib v) f o).0
          ≡ informer_of client namespace resync tweak none
    unfolding informer_from
    from-own none own = made-own
    from-own (some i) (inl e) = absurd (cc)
    from-own (some i) (inr e) = cc

    from-HasSettings :
        (o : Option k.Informer)
        → lookup source_type f.informers ≡ o
        → HasSettings client namespace resync tweak
            (informer_from (kinds k) lib.set_transform source_type (default_informer k lib v) f o).1
    unfolding informer_from
    from-HasSettings (some i) e = h
    from-HasSettings none e = record {
      client_kept = h.client_kept;
      namespace_kept = h.namespace_kept;
      resync_kept = h.resync_kept;
      tweak_kept = h.tweak_kept;
      no_transform = h.no_transform;
      no_custom = h.no_custom;
      own = inr (rw (lookup-insert, eq_refl source_type) (ap some made-own));
    }

    pub informer_for-own :
        (informer_for (kinds k) lib.set_transform source_type (default_informer k lib v) f).0
        ≡ informer_of client namespace resync tweak none
    unfolding informer_for
    informer_for-own = from-own (lookup source_type f.informers) h.own

    pub informer_for-HasSettings :
        HasSettings client namespace resync tweak
          (informer_for (kinds k) lib.set_transform source_type (default_informer k lib v) f).1
    unfolding informer_for
    informer_for-HasSettings = from-HasSettings (lookup source_type f.informers) refl
