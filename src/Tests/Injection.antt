-- ===== src/Tests/Injection.antt =====
-- Runs of the theorems on the generated reconciler.
use knative_source.Base.{
  ap, sym, ℕ, zero, suc, ◌≡◌, refl, true, false, Option, none, some, List, [], ◌∷◌, contains, Str,
  str_eq, str_beq, str_beq_iff, ◌==◌, if◌then◌else◌, arith, nat_beq,
}
use knative_source.Base.Bytes.{bytes}
use knative_source.Base.Result.{ok}
use knative_source.Api.Types.{YipYapSource, YipYapSourceStatus}
use knative_source.Injection.Interface.{
  ApiError, is_conflict, error_event, Client, Interface, StringSets, IsStringSets, ReconcilerImpl,
}
use knative_source.Injection.Finalizers.{merged_finalizers}
use knative_source.Injection.Finalizers.Laws.{Merges, merged_finalizers-Merges}
use knative_source.Injection.Reconcile.{reconcile}
use knative_source.Injection.Reconcile.Laws.{IsReadOnly, reconcile_follower}
use knative_source.Injection.Reconcile.Status.{attempts}
use knative_source.Tests.Source.{source_with, status_with}

abbrev pub remove : Str → List Str → List Str
remove x [] = []
remove x (y ∷ ys) = let rest = remove x ys in if y == x then rest else y ∷ rest

abbrev pub sets : StringSets
sets = record {
  Set = List Str;
  of_list = λ xs. xs;
  has = λ s x. contains s x;
  insert = λ x s. x ∷ s;
  delete = remove;
  to_list = λ s. s;
}

contains-remove :
    (s : List Str) (x y : Str) → contains (remove y s) x ≡ (if y == x then false else contains s x)
contains-remove [] x y = ground arith
contains-remove (z ∷ s) x y =
    ground (arith, contains-remove s x y, str_beq_iff z y, str_beq_iff z x, str_beq_iff y x)

sets-IsStringSets : IsStringSets sets
sets-IsStringSets = record {
  has-of_list = λ xs x. refl;
  has-insert = λ s x y. ground arith;
  has-delete = contains-remove;
  to_list-has = λ s x. refl;
}

-- The status in the server, and the number of the events that were recorded.
abbrev World : Type 0
World = YipYapSourceStatus ℕ × ℕ

abbrev source : YipYapSource ℕ
source = source_with 1

abbrev put_at : YipYapSource ℕ → YipYapSourceStatus ℕ → ℕ → Option ApiError × World
put_at o s zero = (some is_conflict, (s, 1))
put_at o s (suc n) = (none, (o.status, suc n))

abbrev put_status : YipYapSource ℕ → World → Option ApiError × World
put_status o w = put_at o w.0 w.1

-- The conditions are a number here. An update is a conflict as long as no event was recorded, which
-- counts as one.
abbrev client : Client ℕ World
client = record {
  get = λ namespace name w. (ok (record source { status = w.0 }), w);
  update_status = put_status;
  patch = λ namespace name p w. ((source, none), w);
}

abbrev observer : Interface ℕ World
observer = record {
  reconcile_kind = λ o w. ((record o { status = status_with 2 }, none), w);
  finalize_kind = none;
  observe_kind =
      some (λ o w. ((record o { status = status_with 3 }, some (error_event (bytes "seen"))), w));
  observe_deletion = none;
}

abbrev impl : ReconcilerImpl ℕ World
impl = record {
  client = client;
  reconciler = observer;
  finalizer_name = bytes "yipyapsources.sources.yipyap.run";
  use_server_side_apply_for_finalizers = false;
  finalizer_field_manager = [];
  force_apply_finalizers = false;
  skip_status_updates = false;
  sets = sets;
  split_key = λ key. some (bytes "ns", key);
  is_leader_for = λ namespace name. name == bytes "led";
  lister = λ namespace name. ok source;
  record_event = λ o t reason message w. (w.0, suc w.1);
  retry_update_conflicts = attempts 4 0;
  object_kind = λ o. none;
  status_equal = λ s t. nat_beq s.conditions t.conditions;
  pre_process = λ o. o;
  post_process = λ o original. o;
}

merged_finalizers-Merges_example :
    Merges impl source
      (sets.has (bytes "yipyapsources.sources.yipyap.run" ∷ []) impl.finalizer_name)
      (merged_finalizers impl source (bytes "yipyapsources.sources.yipyap.run" ∷ []))
merged_finalizers-Merges_example =
    merged_finalizers-Merges impl sets-IsStringSets source
      (bytes "yipyapsources.sources.yipyap.run" ∷ [])

abbrev finalizing : ReconcilerImpl ℕ World
finalizing = record impl {
  reconciler = record observer { finalize_kind = some (λ o w. ((o, none), w)) };
}

abbrev deleted : YipYapSource ℕ
deleted = record source {
  meta = record source.meta {
    is_deleted = true;
    finalizers = bytes "yipyapsources.sources.yipyap.run" ∷ bytes "other" ∷ [];
  };
}

read_only : IsReadOnly impl (λ w. w.0)
read_only = record {
  observe-view = λ call h o w. ap (λ x. elim x [ none ↦ w.0 | some f ↦ (f o w).1.0 ]) (sym h);
  deletion-view = λ call h namespace name w. ground arith;
  record-view = λ o t reason message w. refl;
}

reconcile_follower_example :
    (reconcile impl (bytes "followed") (status_with 0, 0)).1.0 ≡ status_with 0
unfolding str_beq
reconcile_follower_example =
    reconcile_follower impl (λ w. w.0) read_only (bytes "followed") (bytes "ns") (bytes "followed")
      (status_with 0, 0) refl refl

abbrev desired : YipYapSource ℕ
desired = record source { status = status_with 2 }
