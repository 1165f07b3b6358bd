-- ===== src/Injection/Informers/Watches.antt =====
-- What the filtered informers of a context watch.
use knative_source.Base.{◌≡◌, refl, ◌∙◌, ap, Option, none, List, [], map, Str, All}
use knative_source.Base.Duration.{Duration}
use knative_source.Base.Result.{Result, ok, ◌>>=◌}
use knative_source.Knative.ListWatch.{InformerTypes, InformerLib, ListWatch, by_namespace}
use knative_source.Informers.Sources.{Factories, new_filtered_informer, list_watch, tweaked}
use knative_source.Injection.Informers.{
  Context, Panic, get_client, get_labels, selects, filtered_factory_loop, with_filtered_factories,
  with_filtered_informers, filtered_informer_loop,
}
use knative_source.Injection.Informers.Selectors.{scope_name, loop-All, loop-labels}
use knative_source.Injection.Informers.Filtered.{target, Fetched, loop-Loops}

module _ (k : InformerTypes) (lib : InformerLib k) (c : k.Client) (scope : Option Str)
    (resync : Duration) where
  -- Each list and each watch is of the namespace of the scope, by the selector, with the other
  -- options as they were.
  abbrev pub watches : Str → ListWatch k
  watches selector =
      let namespace = scope_name scope in
      record {
        list_func = λ options.
            lib.list_sources c namespace lib.background
              (record options { label_selector = selector });
        watch_func = λ options.
            lib.watch_sources c namespace lib.background
              (record options { label_selector = selector });
        list_with_context_func = λ ctx options.
            lib.list_sources c namespace ctx (record options { label_selector = selector });
        watch_func_with_context = λ ctx options.
            lib.watch_sources c namespace ctx (record options { label_selector = selector });
      }

  abbrev pub watching : Str → k.Informer
  watching selector =
      lib.set_transform none (lib.new_shared_index_informer (watches selector) resync by_namespace)

  target-watching : target k lib c scope resync ≡ watching
  unfolding new_filtered_informer list_watch tweaked selects
  target-watching = refl

-- The contexts that have an informer for each selector.
pub record Watches (k : InformerTypes) (lib : InformerLib k) (c : k.Client) (ctx : Context k)
    (ss : List Str) (r : Result Panic (Context k × List k.Informer × Factories k)) : Type 0 where
  pub context : Context k
  pub factories : Factories k
  pub returned :
      r ≡ ok (context, map (watching k lib c ctx.namespace_scope ctx.resync_period) ss, factories)
  pub fetched : All (Fetched k lib c ctx.namespace_scope ctx.resync_period context) ss

module _ (k : InformerTypes) (lib : InformerLib k) where
  with_filtered_factories-ok :
      (ctx : Context k) (m : Factories k) {c : k.Client} {ss : List Str}
      → get_client k ctx ≡ ok c
      → get_labels k ctx ≡ ok ss
      → with_filtered_factories k ctx m ≡ ok (filtered_factory_loop k c ss ctx m)
  unfolding with_filtered_factories
  with_filtered_factories-ok ctx m client labels = rw (client, labels) refl

  with_filtered_informers-loop :
      (ctx : Context k) (m : Factories k) {ss : List Str}
      → get_labels k ctx ≡ ok ss
      → with_filtered_informers k lib ctx m ≡ filtered_informer_loop k lib ss ctx [] m
  unfolding with_filtered_informers
  with_filtered_informers-loop ctx m labels = rw labels refl

  -- A context with a client and selectors, given its filtered factories and then its filtered
  -- informers: no call panics, and there is one informer for each selector, in their order. Each lists
  -- and watches in the namespace of the context's scope, or in all namespaces without one, and by its
  -- selector. Behind that, `Get` finds for each selector an informer of that selector and namespace.
  pub with_filtered_informers-Watches :
      (ctx : Context k) (m : Factories k) {c : k.Client} {ss : List Str}
      → get_client k ctx ≡ ok c
      → get_labels k ctx ≡ ok ss
      → Watches k lib c ctx ss
          (with_filtered_factories k ctx m >>= λ (ctx', m'). with_filtered_informers k lib ctx' m')
  with_filtered_informers-Watches ctx m {c} {ss} client labels =
      let scope = ctx.namespace_scope in
      let resync = ctx.resync_period in
      let (ctx', m') = filtered_factory_loop k c ss ctx m in
      let loops =
        loop-Loops k lib c scope resync ss ctx' [] m'
          (loop-All k lib c scope resync ss ctx m refl refl) in
      record {
        context = loops.context;
        factories = loops.factories;
        returned =
            ap (λ r. r >>= λ (ctx', m'). with_filtered_informers k lib ctx' m')
              (with_filtered_factories-ok ctx m client labels)
            ∙ with_filtered_informers-loop ctx' m'
                (loop-labels k lib c scope resync ss ctx m ∙ labels)
            ∙ loops.returned
            ∙ ap (λ f. ok (loops.context, map f ss, loops.factories))
                (target-watching k lib c scope resync);
        fetched = loops.fetched;
      }
