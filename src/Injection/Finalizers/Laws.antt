-- ===== src/Injection/Finalizers/Laws.antt =====
-- What the updates of the finalizers send.
use knative_source.Base.{
  ◌≡◌, ◌∙◌, sym, ap, Bool, true, false, not, ◌||◌, Option, none, some, List, [], ◌∷◌, ◌++◌,
  if◌then◌else◌, Str, str_eq, ◌==◌, contains, arith, Bool-cases, inl, inr,
}
use knative_source.Api.Types.{YipYapSource}
use knative_source.Injection.Interface.{IsStringSets, ReconcilerImpl}
use knative_source.Injection.Finalizers.{merged_finalizers}

contains-append :
    (xs : List Str) (y x : Str) → contains (xs ++ (y ∷ [])) x ≡ (contains xs x || y == x)
contains-append [] y x = ground arith
contains-append (z ∷ xs) y x = ground (arith, contains-append xs y x)

module _ {C W : Type 0} (r : ReconcilerImpl C W) where
  -- What is asked of the finalizer of this controller, and nothing of the others.
  abbrev pub Merges : YipYapSource C → Bool → Option (List Str) → Type 0
  Merges resource wanted none = contains resource.meta.finalizers r.finalizer_name ≡ wanted
  Merges resource wanted (some finalizers) =
      (x : Str)
      → contains finalizers x
        ≡ (if r.finalizer_name == x then wanted else contains resource.meta.finalizers x)

  added :
      IsStringSets r.sets
      → (resource : YipYapSource C)
      → Merges resource true (
          if r.sets.has (r.sets.of_list resource.meta.finalizers) r.finalizer_name
          then none
          else some (resource.meta.finalizers ++ (r.finalizer_name ∷ [])))
  added laws resource =
      elim (Bool-cases (r.sets.has (r.sets.of_list resource.meta.finalizers) r.finalizer_name)) [
        | inl has ↦ rw has (sym (laws.has-of_list resource.meta.finalizers r.finalizer_name) ∙ has)
        | inr lacks ↦
            rw lacks
              (λ x. ground (arith, contains-append resource.meta.finalizers r.finalizer_name x))
      ]

  removed :
      IsStringSets r.sets
      → (resource : YipYapSource C)
      → Merges resource false (
          if not (r.sets.has (r.sets.of_list resource.meta.finalizers) r.finalizer_name)
          then none
          else some (
              r.sets.to_list
                (r.sets.delete r.finalizer_name (r.sets.of_list resource.meta.finalizers))))
  removed laws resource =
      let existing = r.sets.of_list resource.meta.finalizers in
      elim (Bool-cases (r.sets.has existing r.finalizer_name)) [
        | inl has ↦ rw has (λ x.
            laws.to_list-has (r.sets.delete r.finalizer_name existing) x
            ∙ laws.has-delete existing x r.finalizer_name
            ∙ ap (λ b. if r.finalizer_name == x then false else b)
                (laws.has-of_list resource.meta.finalizers x))
        | inr lacks ↦
            rw lacks (sym (laws.has-of_list resource.meta.finalizers r.finalizer_name) ∙ lacks)
      ]

  -- A merge patch has the finalizer of this controller exactly when the desired set has it, and each
  -- other finalizer exactly when the resource has it. None is sent exactly when the resource is as
  -- desired.
  pub merged_finalizers-Merges :
      IsStringSets r.sets
      → (resource : YipYapSource C) (desired : r.sets.Set)
      → Merges resource (r.sets.has desired r.finalizer_name) (merged_finalizers r resource desired)
  unfolding merged_finalizers
  merged_finalizers-Merges laws resource desired =
      elim (r.sets.has desired r.finalizer_name)
        as (λ wants. Merges resource wants (
          if wants
          then (if r.sets.has (r.sets.of_list resource.meta.finalizers) r.finalizer_name
              then none
              else some (resource.meta.finalizers ++ (r.finalizer_name ∷ [])))
          else (if not (r.sets.has (r.sets.of_list resource.meta.finalizers) r.finalizer_name)
              then none
              else some (
                  r.sets.to_list
                    (r.sets.delete r.finalizer_name (r.sets.of_list resource.meta.finalizers)))))) [
                      | true ↦ added laws resource
                      | false ↦ removed laws resource
                    ]
