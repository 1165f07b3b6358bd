-- ===== src/Injection/Informers/Selectors.antt =====
-- The filtered factories of a context: one for each selector, with that selector and the context's
-- namespace.
use mathlib.Core.Path.{subst}
use knative_source.Base.{
  ℕ, ◌≡◌, refl, sym, inl, inr, ◌<◌, false, Option, none, some, List, [], ◌∷◌, Str, str_eq,
  str_beq_iff, eq_refl, ◌==◌, All, arith, Bool-cases, Option-cases,
}
use knative_source.Base.Dict.{lookup}
use knative_source.Base.Duration.{Duration}
use knative_source.Base.Memory.{alloc, reserve, write, write_other, write_same}
use knative_source.Informers.{Factory, new_factory, with_namespace, with_tweak_list_options}
use knative_source.Knative.ListWatch.{InformerTypes, InformerLib}
use knative_source.Informers.Sources.{kinds, Factories}
use knative_source.Informers.Sources.Own.{HasSettings}
use knative_source.Injection.Informers.{
  filtered_factory_entry, Context, with_value, filtered_factory_in, selects, filtered_options,
  filtered_factory_loop, get_labels,
}

-- The namespace of a scope: without one, all namespaces.
abbrev pub scope_name : Option Str → Str
scope_name none = []
scope_name (some namespace) = namespace

module _ (k : InformerTypes) (lib : InformerLib k) (c : k.Client) (scope : Option Str)
    (resync : Duration) where
  abbrev pub IsFor : Str → Factory (kinds k) → Type 0
  IsFor selector = HasSettings k lib c (scope_name scope) resync (some (selects k selector))

  new_factory-IsFor :
      (selector : Str) (ctx : Context k)
      → ctx.namespace_scope ≡ scope
      → ctx.resync_period ≡ resync
      → IsFor selector (new_factory (kinds k) c ctx.resync_period (filtered_options k selector ctx))
  unfolding new_factory with_namespace with_tweak_list_options lookup
  new_factory-IsFor selector ctx same_scope same_resync = elim (Option-cases scope) [
    | inl all ↦
        rw (same_scope, all)
          (record {
            client_kept = refl;
            namespace_kept = refl;
            resync_kept = same_resync;
            tweak_kept = refl;
            no_transform = refl;
            no_custom = refl;
            own = inl refl;
          })
    | inr (n, one) ↦
        rw (same_scope, one)
          (record {
            client_kept = refl;
            namespace_kept = refl;
            resync_kept = same_resync;
            tweak_kept = refl;
            no_transform = refl;
            no_custom = refl;
            own = inl refl;
          })
  ]

  -- The context has a factory for the selector.
  pub record Has (ctx : Context k) (m : Factories k) (selector : Str) : Type 0 where
    pub pointer : ℕ
    pub got : filtered_factory_in k selector ctx.entries ≡ some pointer
    pub allocated : pointer < m.next
    pub for_selector : IsFor selector (m.cell pointer)

  module _ (selector : Str) (ctx : Context k) (m : Factories k) (f : Factory (kinds k))
      (h : IsFor selector f) where
    abbrev next_context : Context k
    next_context = with_value k (filtered_factory_entry selector m.next) ctx

    abbrev next_factories : Factories k
    next_factories = write m.next f (reserve m).1

    step-Has_self : Has next_context next_factories selector
    unfolding filtered_factory_in write reserve
    step-Has_self = record {
      pointer = m.next;
      got = rw (eq_refl selector) refl;
      allocated = omega arith;
      for_selector = subst (IsFor selector) (sym (write_same m.next f (reserve m).1)) h;
    }

    step-Has_other :
        (t : Str) → (selector == t) ≡ false → Has ctx m t → Has next_context next_factories t
    unfolding filtered_factory_in write reserve
    step-Has_other t apart has = record {
      pointer = has.pointer;
      got = rw apart has.got;
      allocated = omega (arith, has.allocated);
      for_selector =
          subst (IsFor t)
            (sym (
              write_other m.next f (reserve m).1 has.pointer
                (λ e. omega (arith, e, has.allocated))))
            has.for_selector;
    }

    step-Has : (t : Str) → Has ctx m t → Has next_context next_factories t
    step-Has t has = elim (Bool-cases (selector == t)) [
      | inl same ↦
          subst (Has next_context next_factories) ((str_beq_iff selector t).0 same) step-Has_self
      | inr apart ↦ step-Has_other t apart has
    ]

  loop-Has :
      (ss : List Str) (ctx : Context k) (m : Factories k) (t : Str)
      → ctx.namespace_scope ≡ scope
      → ctx.resync_period ≡ resync
      → Has ctx m t
      → let (ctx', m') = filtered_factory_loop k c ss ctx m in Has ctx' m' t
  unfolding filtered_factory_loop alloc reserve
  loop-Has [] ctx m t sc re has = has
  loop-Has (s ∷ ss) ctx m t sc re has =
      let f = new_factory (kinds k) c ctx.resync_period (filtered_options k s ctx) in
      let f_for = new_factory-IsFor s ctx sc re in
      loop-Has ss (next_context s ctx m f f_for) (next_factories s ctx m f f_for) t sc re
        (step-Has s ctx m f f_for t has)

  pub loop-All :
      (ss : List Str) (ctx : Context k) (m : Factories k)
      → ctx.namespace_scope ≡ scope
      → ctx.resync_period ≡ resync
      → let (ctx', m') = filtered_factory_loop k c ss ctx m in All (Has ctx' m') ss
  unfolding filtered_factory_loop alloc reserve
  loop-All [] ctx m sc re = tt
  loop-All (s ∷ ss) ctx m sc re =
      let f = new_factory (kinds k) c ctx.resync_period (filtered_options k s ctx) in
      let f_for = new_factory-IsFor s ctx sc re in
      (
        loop-Has ss (next_context s ctx m f f_for) (next_factories s ctx m f f_for) s sc re
            (step-Has_self s ctx m f f_for),
        loop-All ss (next_context s ctx m f f_for) (next_factories s ctx m f f_for) sc re,
      )

  -- The loop adds factories alone.
  pub loop-labels :
      (ss : List Str) (ctx : Context k) (m : Factories k)
      → get_labels k (filtered_factory_loop k c ss ctx m).0 ≡ get_labels k ctx
  unfolding filtered_factory_loop get_labels
  loop-labels [] ctx m = refl
  loop-labels (s ∷ ss) ctx m = loop-labels ss _ _
