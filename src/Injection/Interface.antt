-- ===== src/Injection/Interface.antt =====
-- What the generated reconciler is made with, and the values that it passes: the types of
-- reconciler.go, and the parts of knative.dev/pkg and of the Kubernetes client that it calls.
use knative_source.Base.{
  ◌≡◌, ℕ, Bool, true, false, Option, List, contains, Str, str_eq, ◌==◌, if◌then◌else◌,
}
use knative_source.Base.Result.{Result}
use knative_source.Api.Types.{YipYapSource, YipYapSourceStatus}

pub data ApiError : Type 0 where
  is_not_found is_conflict : ApiError
  other : Str → ApiError

pub data EventType : Type 0 where
  normal warning : EventType

-- `reconciler.Event`, an error, by what `EventAs`, `IsSkipKey`, `IsRequeueKey` and `IsConflict` tell
-- of it: a `ReconcilerEvent`, or an error that wraps one, and else an error of one of four sorts.
pub data Event : Type 0 where
  reconciler_event wrapped_event : EventType → Str → Str → Event
  skip_event requeue_event conflict_event : Str → Event
  error_event : Str → Event

-- The two bodies of a patch.
pub data Patch : Type 0 where
  merge_patch : (finalizers : List Str) → (resource_version : Str) → Patch
  apply_patch :
      (kind : Str × Str)
      → (name uid : Str) → (finalizers : List Str) → (namespace : Str) → (field_manager : Str)
      → (force : Bool) → Patch

-- The client, over the state of the world.
pub record Client (C W : Type 0) : Type 0 where
  pub get : Str → Str → W → Result ApiError (YipYapSource C) × W
  pub update_status : YipYapSource C → W → Option ApiError × W
  -- For a namespace and a name. The second part is what comes back beside an error.
  pub patch : Str → Str → Patch → W → (YipYapSource C × Option ApiError) × W

-- The reconciler's own interface and its optional ones. A call changes the object that it is given
-- and the world.
abbrev pub DoReconcile : Type 0 → Type 0 → Type 0
DoReconcile C W = YipYapSource C → W → (YipYapSource C × Option Event) × W

pub record Interface (C W : Type 0) : Type 0 where
  pub reconcile_kind : DoReconcile C W
  pub finalize_kind : Option (DoReconcile C W)
  pub observe_kind : Option (DoReconcile C W)
  pub observe_deletion : Option (Str → Str → W → Option Event × W)

-- `sets.Set[string]`
pub record StringSets : Type 1 where
  pub Set : Type 0
  pub of_list : List Str → Set
  pub has : Set → Str → Bool
  pub insert : Str → Set → Set
  pub delete : Str → Set → Set
  pub to_list : Set → List Str

-- What its documentation promises.
pub record IsStringSets (sets : StringSets) : Type 0 where
  pub has-of_list : (xs : List Str) (x : Str) → sets.has (sets.of_list xs) x ≡ contains xs x
  pub has-insert :
      (s : sets.Set) (x y : Str)
      → sets.has (sets.insert y s) x ≡ (if y == x then true else sets.has s x)
  pub has-delete :
      (s : sets.Set) (x y : Str)
      → sets.has (sets.delete y s) x ≡ (if y == x then false else sets.has s x)
  pub to_list-has : (s : sets.Set) (x : Str) → contains (sets.to_list s) x ≡ sets.has s x

-- `reconcilerImpl`, with the functions that it calls: the split of a key, the leader's test, the
-- lister of the cache, the event recorder, the retry of a conflicting update, the kinds that the
-- scheme knows, the equality of statuses, and the steps of knative.dev/pkg/reconciler around
-- `ReconcileKind`.
pub record ReconcilerImpl (C W : Type 0) : Type 1 where
  pub client : Client C W
  pub reconciler : Interface C W
  pub finalizer_name : Str
  pub use_server_side_apply_for_finalizers : Bool
  pub finalizer_field_manager : Str
  pub force_apply_finalizers : Bool
  pub skip_status_updates : Bool
  pub sets : StringSets
  pub split_key : Str → Option (Str × Str)
  pub is_leader_for : Str → Str → Bool
  pub lister : Str → Str → Result ApiError (YipYapSource C)
  pub record_event : YipYapSource C → EventType → Str → Str → W → W
  pub retry_update_conflicts : (ℕ → W → Option ApiError × W) → W → Option ApiError × W
  pub object_kind : YipYapSource C → Option (Str × Str)
  pub status_equal : YipYapSourceStatus C → YipYapSourceStatus C → Bool
  pub pre_process : YipYapSource C → YipYapSource C
  pub post_process : YipYapSource C → YipYapSource C → YipYapSource C
