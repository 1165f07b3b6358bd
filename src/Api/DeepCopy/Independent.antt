-- ===== src/Api/DeepCopy/Independent.antt =====
-- DeepCopyObject, which the reconciler's copies of cached sources rest on.
use mathlib.Core.Path.{subst}
use knative_source.Base.{ℕ, ◌≡◌, refl, ◌∙◌, sym, Option, none, some, List}
use knative_source.Base.Memory.{Memory, SameOn, Grows, IsDeepCopy}
use knative_source.Api.Types.{YipYapSource}
use knative_source.Api.Cells.{Parts, TypeMeta, Mem, source_cells, lists}
use knative_source.Api.DeepCopy.{
  PartCopies, source_deep_copy, source_deep_copy_object, list_deep_copy, list_deep_copy_object,
  object_of,
}
use knative_source.Api.DeepCopy.Pointers.{view_pointer, IsStoredPointer, deep_copy-IsDeepCopy}
use knative_source.Api.DeepCopy.Structs.{PartLaws, view_source, IsStoredSource, source-IsDeepCopy}
use knative_source.Api.DeepCopy.Items.{view_list, IsStoredList, list-IsDeepCopy}

-- Of a pointer `p` in a memory `m` and the result `r` of a copy: nothing that was allocated has
-- changed, the copy stands for what the original does, later writes to what was allocated before do
-- not show in the copy, and later writes to what is new do not show in the original.
pub record IsIndependent {C V : Type 0} (view : Memory C → Option ℕ → V) (m : Memory C)
    (p : Option ℕ) (r : Option ℕ × Memory C) : Type 0 where
  pub grows : Grows m r.1
  pub equal : view r.1 r.0 ≡ view m p
  pub keeps_copy : (g : Memory C) → SameOn m.next r.1.next g r.1 → view g r.0 ≡ view m p
  pub keeps_original : (g : Memory C) → SameOn 0 m.next g r.1 → view g p ≡ view m p

IsDeepCopy-IsIndependent :
    {C V : Type 0} (view : Memory C → Option ℕ → V) (IsStored : Memory C → Option ℕ → Type 0)
    (copy : Option ℕ → Memory C → Option ℕ × Memory C)
    → IsDeepCopy view IsStored copy
    → (m : Memory C) (p : Option ℕ) → IsStored m p
    → IsIndependent view m p (copy p m)
IsDeepCopy-IsIndependent view IsStored copy d m p st =
    let c = d.copies m p st in
    record {
      grows = c.grows;
      equal = c.keeps (copy p m).1 (λ a low high. refl);
      keeps_copy = c.keeps;
      keeps_original =
          λ g same. d.stable m g p st (λ a low high. same a low high ∙ c.grows.same a low high);
    }

module _ (k : Parts) (parts : PartCopies k) {C L : Type 0} (laws : PartLaws k parts C L) where
  object_of_lem : (r : Option ℕ × Mem k) → object_of k parts r ≡ r
  unfolding object_of
  object_of_lem (none, m) = refl
  object_of_lem (some c, m) = refl

  abbrev pub view_source_at : Mem k → Option ℕ → Option (TypeMeta × YipYapSource C)
  view_source_at = view_pointer k (source_cells k) (view_source k parts laws)

  abbrev pub view_list_at :
      Mem k → Option ℕ → Option (TypeMeta × L × List (TypeMeta × YipYapSource C))
  view_list_at = view_pointer k (lists k) (view_list k parts laws)

  -- The deep copy of a source, as a `runtime.Object`: it stands for the same source, nothing that was
  -- allocated has changed, and neither shows a later write to the other: not one to the cells that
  -- were there before, nor one to those that are new. A nil pointer has a nil copy. Of the structs of
  -- other packages it is assumed that their methods copy deeply.
  pub source_deep_copy_object-IsIndependent :
      (p : Option ℕ) (m : Mem k)
      → IsStoredPointer k (source_cells k) (IsStoredSource k parts laws) m p
      → IsIndependent view_source_at m p (source_deep_copy_object k parts p m)
  unfolding source_deep_copy_object source_deep_copy
  source_deep_copy_object-IsIndependent p m st =
      subst (IsIndependent view_source_at m p) (sym (object_of_lem (source_deep_copy k parts p m)))
        (IsDeepCopy-IsIndependent _ _ _
          (deep_copy-IsDeepCopy k (source_cells k) (λ s. refl) _ _ _
            (source-IsDeepCopy k parts laws))
          m p st)

  -- The deep copy of a list of sources, in the same sense, with every item that the slice holds.
  pub list_deep_copy_object-IsIndependent :
      (p : Option ℕ) (m : Mem k)
      → IsStoredPointer k (lists k) (IsStoredList k parts laws) m p
      → IsIndependent view_list_at m p (list_deep_copy_object k parts p m)
  unfolding list_deep_copy_object list_deep_copy
  list_deep_copy_object-IsIndependent p m st =
      subst (IsIndependent view_list_at m p) (sym (object_of_lem (list_deep_copy k parts p m))) (
        IsDeepCopy-IsIndependent _ _ _
          (deep_copy-IsDeepCopy k (lists k) (λ l. refl) _ _ _ (list-IsDeepCopy k parts laws)) m p
          st)
