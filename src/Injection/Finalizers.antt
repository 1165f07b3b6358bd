-- ===== src/Injection/Finalizers.antt =====
-- The finalizers: reconciler.go from `updateFinalizersFiltered` to its end.
pub mod Laws
use knative_source.Base.{
  Bool, true, false, not, Option, none, some, List, [], ◌∷◌, ◌++◌, if◌then◌else◌, Str, str_eq, ◌==◌,
}
use knative_source.Base.Bytes.{bytes}
use knative_source.Base.Result.{Result, ok, err}
use knative_source.Api.Types.{YipYapSource}
use knative_source.Injection.Interface.{
  ApiError, is_not_found, is_conflict, other, EventType, normal, warning, Event, reconciler_event,
  wrapped_event, Patch, merge_patch, apply_patch, ReconcilerImpl,
}

-- What `EventAs` finds: the type of the `ReconcilerEvent`.
abbrev pub event_as : Event → Option EventType
event_as (reconciler_event t reason message) = some t
event_as (wrapped_event t reason message) = some t
event_as _ = none

module _ {C W : Type 0} (r : ReconcilerImpl C W) where
  open r.sets use {Set}

  abbrev pub Updated : Type 0
  Updated = (YipYapSource C × Option ApiError) × W

  -- The finalizers to send, or `none` for nothing to do.
  unfoldable pub applied_finalizers : YipYapSource C → Set → Option (List Str)
  applied_finalizers resource desired =
      let existing = r.sets.of_list resource.meta.finalizers in
      if r.sets.has desired r.finalizer_name
      then (if r.sets.has existing r.finalizer_name then none else some (r.finalizer_name ∷ []))
      else (if not (r.sets.has existing r.finalizer_name) then none else some [])

  unfoldable pub merged_finalizers : YipYapSource C → Set → Option (List Str)
  merged_finalizers resource desired =
      let existing = r.sets.of_list resource.meta.finalizers in
      if r.sets.has desired r.finalizer_name
      then (if r.sets.has existing r.finalizer_name
          then none
          else some (resource.meta.finalizers ++ (r.finalizer_name ∷ [])))
      else (if not (r.sets.has existing r.finalizer_name)
          then none
          else some (r.sets.to_list (r.sets.delete r.finalizer_name existing)))

  -- The event behind a patch, for the object that is at hand and what the client returned.
  recorded : YipYapSource C → Updated → Updated
  recorded resource ((updated, none), w) = (
    (updated, none),
    r.record_event updated normal (bytes "FinalizerUpdate") resource.meta.name w,
  )
  recorded resource ((updated, some is_conflict), w) = ((updated, some is_conflict), w)
  recorded resource ((updated, some e), w) = (
    (updated, some e),
    r.record_event resource warning (bytes "FinalizerUpdateFailed") resource.meta.name w,
  )

  send_patch : YipYapSource C → Patch → W → Updated
  unfolding recorded
  send_patch resource p w =
      recorded resource (r.client.patch resource.meta.namespace resource.meta.name p w)

  send_applied : YipYapSource C → Option (List Str) → W → Updated
  unfolding send_patch
  send_applied resource none w = ((resource, none), w)
  send_applied resource (some finalizers) w = elim (r.object_kind resource) [
    | none ↦ ((resource, some (other (bytes "failed to determine GVK for resource"))), w)
    | some kind ↦
        send_patch resource
          (apply_patch kind resource.meta.name resource.meta.uid finalizers resource.meta.namespace
            r.finalizer_field_manager r.force_apply_finalizers)
          w
  ]

  send_merged : YipYapSource C → Option (List Str) → W → Updated
  unfolding send_patch
  send_merged resource none w = ((resource, none), w)
  send_merged resource (some finalizers) w =
      send_patch resource (merge_patch finalizers resource.meta.resource_version) w

  unfoldable pub update_finalizers_filtered : YipYapSource C → Set → W → Updated
  unfolding applied_finalizers merged_finalizers send_applied send_merged
  update_finalizers_filtered resource desired w =
      if r.use_server_side_apply_for_finalizers
      then send_applied resource (applied_finalizers resource desired) w
      else send_merged resource (merged_finalizers resource desired) w

  set_desired : YipYapSource C → Set
  set_desired resource =
      let finalizers = r.sets.of_list resource.meta.finalizers in
      if not resource.meta.is_deleted then r.sets.insert r.finalizer_name finalizers else finalizers

  unfoldable pub set_finalizer_if_finalizer : YipYapSource C → W → Updated
  unfolding update_finalizers_filtered set_desired
  set_finalizer_if_finalizer resource w = elim r.reconciler.finalize_kind [
    | none ↦ ((resource, none), w)
    | some _ ↦ update_finalizers_filtered resource (set_desired resource) w
  ]

  -- Whether an event lets the finalizer go.
  abbrev pub is_clean : Option Event → Bool
  is_clean none = true
  is_clean (some e) = elim (event_as e) [ none ↦ false | some normal ↦ true | some warning ↦ false ]

  clear_desired : YipYapSource C → Option Event → Set
  clear_desired resource event =
      let finalizers = r.sets.of_list resource.meta.finalizers in
      if is_clean event then r.sets.delete r.finalizer_name finalizers else finalizers

  -- Behind an update that failed, with what a further read of the resource answers: a resource that
  -- is gone has lost its finalizer.
  checked :
      YipYapSource C
      → YipYapSource C × Option ApiError
      → Result ApiError (YipYapSource C)
      → W
      → Updated
  checked resource failure (err is_not_found) w = ((resource, none), w)
  checked resource failure _ w = (failure, w)

  cleared : YipYapSource C → Updated → Updated
  unfolding checked
  cleared resource ((updated, none), w) = ((updated, none), w)
  cleared resource ((updated, some e), w) =
      let (answer, w') = r.client.get resource.meta.namespace resource.meta.name w in
      checked resource (updated, some e) answer w'

  unfoldable pub clear_finalizer : YipYapSource C → Option Event → W → Updated
  unfolding update_finalizers_filtered clear_desired cleared
  clear_finalizer resource event w = elim r.reconciler.finalize_kind [
    | none ↦ ((resource, none), w)
    | some _ ↦
        if not resource.meta.is_deleted
        then ((resource, none), w)
        else cleared resource (update_finalizers_filtered resource (clear_desired resource event) w)
  ]
