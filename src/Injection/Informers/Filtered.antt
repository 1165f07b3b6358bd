-- ===== src/Injection/Informers/Filtered.antt =====
-- The filtered informers of a context: those of its selectors.
use mathlib.Core.List.{append-nil, append_assoc}
use mathlib.Core.Path.{subst}
use knative_source.Base.{
  ℕ, ◌≡◌, refl, ◌∙◌, ap, inl, inr, Option, none, some, List, [], ◌∷◌, ◌++◌, map, Str, str_eq,
  nat_eq, nat_beq_iff, str_beq_iff, eq_refl, ◌==◌, All, Bool-cases,
}
use knative_source.Base.Duration.{Duration}
use knative_source.Base.Memory.{write}
use knative_source.Base.Result.{Result, ok}
use knative_source.Knative.ListWatch.{InformerTypes, InformerLib}
use knative_source.Informers.Sources.{Factories, SourceInformer, source_informer, informer}
use knative_source.Informers.Sources.Own.{informer_of, informer_for-own, informer_for-HasSettings}
use knative_source.Injection.Informers.{
  filtered_informer_entry, Context, Panic, with_value, filtered_factory_in, filtered_informer_in,
  get_filtered_factory, get_filtered_informer, selects, filtered_informer_loop,
}
use knative_source.Injection.Informers.Selectors.{scope_name, IsFor, Has}

module _ (k : InformerTypes) (lib : InformerLib k) (c : k.Client) (scope : Option Str)
    (resync : Duration) where
  -- The informer of a selector: it lists and watches in the scope's namespace, by that selector.
  abbrev pub target : Str → k.Informer
  target selector = informer_of k lib c (scope_name scope) resync (some (selects k selector)) none

  -- The context has an informer with the selector and the namespace.
  pub record Fetched (ctx : Context k) (selector : Str) : Type 0 where
    pub informer : SourceInformer k
    pub got : get_filtered_informer k ctx selector ≡ ok informer
    pub namespace : informer.namespace ≡ scope_name scope
    pub tweak : informer.tweak_list_options ≡ some (selects k selector)

  module _ (selector : Str) (ctx : Context k) (m : Factories k)
      (has : Has k lib c scope resync ctx m selector) where
    abbrev inf : SourceInformer k
    inf = source_informer k has.pointer m

    abbrev next_context : Context k
    next_context = with_value k (filtered_informer_entry selector inf) ctx

    informer-target : (informer k lib inf m).0 ≡ target selector
    unfolding informer source_informer
    informer-target =
        informer_for-own k lib c (scope_name scope) resync (some (selects k selector)) inf
          has.for_selector.namespace_kept has.for_selector.tweak_kept (m.cell has.pointer)
          has.for_selector

    cell-IsFor :
        (t : Str) (q : ℕ)
        → IsFor k lib c scope resync t (m.cell q)
        → IsFor k lib c scope resync t ((informer k lib inf m).1.cell q)
    unfolding informer source_informer write
    cell-IsFor t q h = elim (Bool-cases (q == has.pointer)) [
      | inl same ↦
          let h' =
            subst (λ a. IsFor k lib c scope resync t (m.cell a))
              ((nat_beq_iff q has.pointer).0 same) h in
          rw same (
            informer_for-HasSettings k lib c (scope_name scope) resync (some (selects k t)) inf
              h'.namespace_kept h'.tweak_kept (m.cell has.pointer) h')
      | inr apart ↦ rw apart h
    ]

    informer-Has :
        (t : Str)
        → Has k lib c scope resync ctx m t
        → Has k lib c scope resync next_context (informer k lib inf m).1 t
    unfolding informer source_informer filtered_factory_in write
    informer-Has t other = record {
      pointer = other.pointer;
      got = other.got;
      allocated = other.allocated;
      for_selector = cell-IsFor t other.pointer other.for_selector;
    }

    loop_step :
        (ss : List Str) (infs : List k.Informer)
        → filtered_informer_loop k lib (selector ∷ ss) ctx infs m
          ≡ filtered_informer_loop k lib ss next_context
              (infs ++ ((informer k lib inf m).0 ∷ []))
              (informer k lib inf m).1
    unfolding filtered_informer_loop get_filtered_factory
    loop_step ss infs = rw (has.got, filtered_informer_loop) refl

    next-Fetched_self : Fetched next_context selector
    unfolding source_informer get_filtered_informer filtered_informer_in
    next-Fetched_self = record {
      informer = inf;
      got = rw (eq_refl selector) refl;
      namespace = has.for_selector.namespace_kept;
      tweak = has.for_selector.tweak_kept;
    }

    next-Fetched : (t : Str) → Fetched ctx t → Fetched next_context t
    unfolding get_filtered_informer filtered_informer_in
    next-Fetched t fetched = elim (Bool-cases (selector == t)) [
      | inl same ↦ subst (Fetched next_context) ((str_beq_iff selector t).0 same) next-Fetched_self
      | inr apart ↦ record {
        informer = fetched.informer;
        got = rw apart fetched.got;
        namespace = fetched.namespace;
        tweak = fetched.tweak;
      }
    ]

  All-Has :
      (ctx ctx' : Context k) (m m' : Factories k) (ss : List Str)
      → ((t : Str) → Has k lib c scope resync ctx m t → Has k lib c scope resync ctx' m' t)
      → All (Has k lib c scope resync ctx m) ss
      → All (Has k lib c scope resync ctx' m') ss
  All-Has ctx ctx' m m' [] keeps h = tt
  All-Has ctx ctx' m m' (s ∷ ss) keeps h = (keeps s h.0, All-Has ctx ctx' m m' ss keeps h.1)

  -- What the loop over the selectors returns.
  pub record Loops (ss : List Str) (ctx : Context k) (infs : List k.Informer)
      (r : Result Panic (Context k × List k.Informer × Factories k)) : Type 0 where
    pub context : Context k
    pub factories : Factories k
    pub returned : r ≡ ok (context, infs ++ map target ss, factories)
    pub kept : (t : Str) → Fetched ctx t → Fetched context t
    pub fetched : All (Fetched context) ss

  pub loop-Loops :
      (ss : List Str) (ctx : Context k) (infs : List k.Informer) (m : Factories k)
      → All (Has k lib c scope resync ctx m) ss
      → Loops ss ctx infs (filtered_informer_loop k lib ss ctx infs m)
  unfolding filtered_informer_loop
  loop-Loops [] ctx infs m h = record {
    context = ctx;
    factories = m;
    returned = rw append-nil refl;
    kept = λ t f. f;
    fetched = tt;
  }
  loop-Loops (s ∷ ss) ctx infs m h =
      let ctx1 = next_context s ctx m h.0 in
      let (i, m1) = informer k lib (inf s ctx m h.0) m in
      let rest =
        loop-Loops ss ctx1 (infs ++ (i ∷ [])) m1
          (All-Has ctx ctx1 m m1 ss (informer-Has s ctx m h.0) h.1) in
      record {
        context = rest.context;
        factories = rest.factories;
        returned =
            loop_step s ctx m h.0 ss infs
            ∙ rest.returned
            ∙ ap (λ is. ok (rest.context, is, rest.factories))
                (append_assoc infs (i ∷ []) (map target ss)
                  ∙ ap (λ j. infs ++ (j ∷ map target ss)) (informer-target s ctx m h.0));
        kept = λ t f. rest.kept t (next-Fetched s ctx m h.0 t f);
        fetched = (rest.kept s (next-Fetched_self s ctx m h.0), rest.fetched);
      }
