-- ===== src/Injection/Options.antt =====
-- The options of `NewReconciler` (reconciler.go) and of `NewImpl` (controller.go), and the promotion
-- of a bucket. `none` is the end of the process by `logger.Fatal`.
pub mod Laws
pub mod Recorder
use knative_source.Base.{
  ℕ, Bool, true, false, not, Option, none, some, List, [], ◌∷◌, ◌++◌, length, ltb, if◌then◌else◌,
  Str, str_eq, ◌==◌,
}
use knative_source.Base.Bytes.{bytes}
use knative_source.Base.Result.{Result, ok, err}
use knative_source.Api.Types.{YipYapSource}
use knative_source.Injection.Interface.{ApiError}

abbrev pub default_controller_agent_name : Str
default_controller_agent_name = bytes "yipyapsource-controller"

abbrev pub default_finalizer_name : Str
default_finalizer_name = bytes "yipyapsources.sources.yipyap.run"

-- `controller.Options`, over the types of a config store and of a callback for a bucket, each nil or
-- set.
pub record Options (Store Callback C : Type 0) : Type 0 where
  pub config_store : Option Store
  pub finalizer_name : Str
  pub agent_name : Str
  pub skip_status_updates : Bool
  pub demote_func : Option Callback
  pub promote_filter_func : Option (YipYapSource C → Bool)
  pub promote_func : Option Callback
  pub use_server_side_apply_for_finalizers : Bool
  pub finalizer_field_manager : Str
  pub force_apply_finalizers : Bool

-- What the options set in a `reconcilerImpl`.
pub record Settings (Store Callback : Type 0) : Type 0 where
  pub config_store : Option Store
  pub finalizer_name : Str
  pub skip_status_updates : Bool
  pub demote_func : Option Callback
  pub use_server_side_apply_for_finalizers : Bool
  pub finalizer_field_manager : Str
  pub force_apply_finalizers : Bool

-- What `NewImpl` makes of its options beside them.
pub record Impl (Store Callback C : Type 0) : Type 0 where
  pub settings : Settings Store Callback
  pub agent_name : Str
  pub promote_filter_func : Option (YipYapSource C → Bool)
  pub promote_func : Option Callback

-- An option that is set takes the place of what was there.
abbrev pub or_else : {A : Type 0} → Option A → Option A → Option A
or_else none old = old
or_else (some new) old = some new

module _ {Store Callback : Type 0} where
  unfoldable pub default_settings : Settings Store Callback
  default_settings = record {
    config_store = none;
    finalizer_name = default_finalizer_name;
    skip_status_updates = false;
    demote_func = none;
    use_server_side_apply_for_finalizers = false;
    finalizer_field_manager = [];
    force_apply_finalizers = false;
  }

module _ {Store Callback C : Type 0} where
  -- The four tests before the one of server-side apply.
  set_plain : Options Store Callback C → Settings Store Callback → Settings Store Callback
  set_plain opts rec = record rec {
    config_store = or_else opts.config_store rec.config_store;
    finalizer_name =
        if not (opts.finalizer_name == []) then opts.finalizer_name else rec.finalizer_name;
    skip_status_updates = if opts.skip_status_updates then true else rec.skip_status_updates;
    demote_func = or_else opts.demote_func rec.demote_func;
  }

  -- The body of the loop in `NewReconciler`.
  unfoldable pub set_options :
      Options Store Callback C → Settings Store Callback → Option (Settings Store Callback)
  unfolding set_plain
  set_options opts rec =
      if not opts.use_server_side_apply_for_finalizers
      then some (set_plain opts rec)
      else (if opts.finalizer_field_manager == []
          then none
          else some (record (set_plain opts rec) {
            use_server_side_apply_for_finalizers = true;
            finalizer_field_manager = opts.finalizer_field_manager;
            force_apply_finalizers = opts.force_apply_finalizers;
          }))

  unfoldable pub reconciler_loop :
      List (Options Store Callback C) → Settings Store Callback → Option (Settings Store Callback)
  reconciler_loop [] rec = some rec
  reconciler_loop (opts ∷ more) rec = elim (set_options opts rec) [
    | none ↦ none
    | some rec' ↦ reconciler_loop more rec'
  ]

  -- The Boolean says that the reconciler implements the other LeaderAware interface.
  unfoldable pub new_reconciler :
      Bool → List (Options Store Callback C) → Option (Settings Store Callback)
  unfolding reconciler_loop default_settings
  new_reconciler is_leader_aware options =
      if ltb 1 (length options)
      then none
      else (if is_leader_aware then none else reconciler_loop options default_settings)

  -- The body of the loop in `NewImpl`.
  unfoldable pub impl_options :
      Options Store Callback C → Impl Store Callback C → Option (Impl Store Callback C)
  unfolding set_options
  impl_options opts i = elim (set_options opts i.settings) [
    | none ↦ none
    | some rec ↦ some (record {
      settings = rec;
      agent_name = if not (opts.agent_name == []) then opts.agent_name else i.agent_name;
      promote_filter_func = or_else opts.promote_filter_func i.promote_filter_func;
      promote_func = or_else opts.promote_func i.promote_func;
    })
  ]

  unfoldable pub impl_loop :
      List (Options Store Callback C) → Impl Store Callback C → Option (Impl Store Callback C)
  impl_loop [] i = some i
  impl_loop (opts ∷ more) i = elim (impl_options opts i) [
    | none ↦ none
    | some i' ↦ impl_loop more i'
  ]

  unfoldable pub new_impl : List (Options Store Callback C) → Option (Impl Store Callback C)
  unfolding impl_loop default_settings
  new_impl options =
      if ltb 1 (length options)
      then none
      else impl_loop options (record {
        settings = default_settings;
        agent_name = default_controller_agent_name;
        promote_filter_func = none;
        promote_func = none;
      })

-- The callback is called first. Its default does nothing.
signal : {Callback W : Type 0} → (Callback → W → W) → Option Callback → W → W
signal call none w = w
signal call (some f) w = call f w

-- The promotion: the loop over what the lister lists, with the keys that were enqueued so far.
module _ {C : Type 0} where
  passes : Option (YipYapSource C → Bool) → YipYapSource C → Bool
  passes none elt = true
  passes (some f) elt = f elt

  promote_loop :
      Option (YipYapSource C → Bool) → List (YipYapSource C) → List (Str × Str) → List (Str × Str)
  unfolding passes
  promote_loop filter [] queue = queue
  promote_loop filter (elt ∷ all) queue =
      let next = promote_loop filter all in
      if not (passes filter elt)
      then next queue
      else next (queue ++ ((elt.meta.namespace, elt.meta.name) ∷ []))

  promote_listed :
      Option (YipYapSource C → Bool)
      → Result ApiError (List (YipYapSource C))
      → List (Str × Str)
      → Option ApiError × List (Str × Str)
  unfolding promote_loop
  promote_listed filter (err e) queue = (some e, queue)
  promote_listed filter (ok all) queue = (none, promote_loop filter all queue)

  -- `PromoteFunc`, for how a callback is called with the bucket and what the lister then lists.
  unfoldable pub promote :
      {Callback W : Type 0}
      → (Callback → W → W)
      → (W → Result ApiError (List (YipYapSource C)))
      → Option Callback
      → Option (YipYapSource C → Bool)
      → List (Str × Str)
      → W
      → (Option ApiError × List (Str × Str)) × W
  unfolding signal promote_listed
  promote call list callback filter queue w =
      let w' = signal call callback w in (promote_listed filter (list w') queue, w')
