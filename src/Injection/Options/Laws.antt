-- ===== src/Injection/Options/Laws.antt =====
-- What the options and a promotion come to.
use knative_source.Base.{
  ◌≡◌, refl, ◌∙◌, ap, Bool, true, false, Option, none, some, List, [], ◌∷◌, ◌++◌, length, ltb,
  if◌then◌else◌, Str, str_eq, ◌==◌, arith, Bool-cases, Option-cases, inl, inr,
}
use knative_source.Base.Result.{Result, ok, err}
use knative_source.Api.Types.{YipYapSource}
use knative_source.Injection.Interface.{ApiError}
use knative_source.Injection.Options.{
  Options, Settings, Impl, set_options, set_plain, reconciler_loop, new_reconciler, impl_options,
  impl_loop, new_impl, default_settings, passes, promote_loop, signal, promote_listed, promote,
}
use mathlib.Core.List.{append_assoc, append-nil}

module _ {Store Demote : Type 0} where
  -- Server-side apply of the finalizers has a field manager.
  abbrev pub IsManaged : Settings Store Demote → Type 0
  IsManaged s =
      s.use_server_side_apply_for_finalizers ≡ true → (s.finalizer_field_manager == []) ≡ false

default-IsManaged :
    (Store Demote : Type 0) → IsManaged {Store = Store} {Demote = Demote} default_settings
unfolding default_settings
default-IsManaged Store Demote h = ground arith

module _ {Store Demote C : Type 0} where
  abbrev pub settings_of : Option (Impl Store Demote C) → Option (Settings Store Demote)
  settings_of none = none
  settings_of (some i) = some i.settings

  impl_loop-settings :
      (options : List (Options Store Demote C)) (i : Impl Store Demote C)
      → settings_of (impl_loop options i) ≡ reconciler_loop options i.settings
  unfolding impl_loop reconciler_loop impl_options
  impl_loop-settings [] i = refl
  impl_loop-settings (opts ∷ more) i = elim (Option-cases (set_options opts i.settings)) [
    | inl fatal ↦ rw (fatal, settings_of, reconciler_loop) refl
    | inr (rec, set) ↦ rw (set, settings_of, reconciler_loop) (impl_loop-settings more _)
  ]

  -- `NewImpl` sets up the reconciler as `NewReconciler` does from the same options, and ends the
  -- process where that does, for a reconciler that is not LeaderAware by itself.
  pub new_impl-new_reconciler :
      (options : List (Options Store Demote C))
      → settings_of (new_impl options) ≡ new_reconciler false options
  unfolding new_impl new_reconciler
  new_impl-new_reconciler options = elim (Bool-cases (ltb 1 (length options))) [
    | inl many ↦ rw many refl
    | inr few ↦ rw few (impl_loop-settings options _)
  ]

  set_options-IsManaged :
      (opts : Options Store Demote C) (s t : Settings Store Demote)
      → IsManaged s
      → set_options opts s ≡ some t
      → IsManaged t
  unfolding set_options set_plain
  set_options-IsManaged opts s t h e = ground (arith, h)

  loop-IsManaged :
      (options : List (Options Store Demote C)) (s t : Settings Store Demote)
      → IsManaged s
      → reconciler_loop options s ≡ some t
      → IsManaged t
  unfolding reconciler_loop
  loop-IsManaged [] s t h = λ e. ground (arith, h)
  loop-IsManaged (opts ∷ more) s t h = elim (Option-cases (set_options opts s)) [
    | inl fatal ↦ rw (fatal, reconciler_loop) (λ e. ground arith)
    | inr (u, set) ↦
        rw (set, reconciler_loop) (loop-IsManaged more u t (set_options-IsManaged opts s u h set))
  ]

  -- A reconciler that is made with server-side apply for its finalizers has the name of a field
  -- manager.
  pub new_reconciler-IsManaged :
      (is_leader_aware : Bool) (options : List (Options Store Demote C)) {s : Settings Store Demote}
      → new_reconciler is_leader_aware options ≡ some s
      → IsManaged s
  unfolding new_reconciler
  new_reconciler-IsManaged is_leader_aware options = elim (Bool-cases (ltb 1 (length options))) [
    | inl many ↦ rw many (λ e. ground arith)
    | inr few ↦ elim (Bool-cases is_leader_aware) [
      | inl aware ↦ rw (few, aware) (λ e. ground arith)
      | inr plain ↦
          rw (few, plain)
            (loop-IsManaged options default_settings _ (default-IsManaged Store Demote))
    ]
  ]

-- The world behind a callback, if there is one.
abbrev pub called : {Callback W : Type 0} → (Callback → W → W) → Option Callback → W → W
called call none w = w
called call (some f) w = call f w

module _ {C : Type 0} where
  -- The keys of the sources that a filter lets through; without one, of all.
  pub keys_of : Option (YipYapSource C → Bool) → List (YipYapSource C) → List (Str × Str)
  keys_of filter [] = []
  keys_of filter (elt ∷ all) =
      let rest = keys_of filter all in
      if elim filter [ none ↦ true | some f ↦ f elt ]
      then (elt.meta.namespace, elt.meta.name) ∷ rest
      else rest

  promote_loop_lem :
      (filter : Option (YipYapSource C → Bool)) (all : List (YipYapSource C))
      (queue : List (Str × Str))
      → promote_loop filter all queue ≡ queue ++ keys_of filter all
  unfolding promote_loop keys_of passes
  promote_loop_lem filter [] queue = rw append-nil refl
  promote_loop_lem none (elt ∷ all) queue = promote_loop_lem none all _ ∙ append_assoc queue _ _
  promote_loop_lem (some f) (elt ∷ all) queue = elim (Bool-cases (f elt)) [
    | inl kept ↦ rw kept (promote_loop_lem (some f) all _ ∙ append_assoc queue _ _)
    | inr dropped ↦ rw dropped (promote_loop_lem (some f) all queue)
  ]

  promote_listed_lem :
      (filter : Option (YipYapSource C → Bool)) (listed : Result ApiError (List (YipYapSource C)))
      (queue : List (Str × Str))
      → promote_listed filter listed queue
        ≡ elim listed [ ok all ↦ (none, queue ++ keys_of filter all) | err e ↦ (some e, queue) ]
  unfolding promote_listed
  promote_listed_lem filter (ok all) queue = ap (λ q. (none, q)) (promote_loop_lem filter all queue)
  promote_listed_lem filter (err e) queue = refl

  -- A promotion calls the callback, if one is set, and then enqueues the keys of the sources that are
  -- listed and that the filter lets through, each once and in their order, behind what is queued, or
  -- nothing if the lister fails.
  pub promote_lem :
      {Callback W : Type 0} (call : Callback → W → W)
      (list : W → Result ApiError (List (YipYapSource C))) (callback : Option Callback)
      (filter : Option (YipYapSource C → Bool)) (queue : List (Str × Str)) (w : W)
      → let w' = called call callback w in
        promote call list callback filter queue w ≡ (
          elim (list w') [ ok all ↦ (none, queue ++ keys_of filter all) | err e ↦ (some e, queue) ],
          w',
        )
  unfolding promote signal
  promote_lem call list none filter queue w =
      ap (λ q. (q, w)) (promote_listed_lem filter (list w) queue)
  promote_lem call list (some f) filter queue w =
      ap (λ q. (q, call f w)) (promote_listed_lem filter (list (call f w)) queue)
