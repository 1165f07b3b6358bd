-- ===== src/Api/DeepCopy/Items.antt =====
-- DeepCopyInto of the list of sources: the loop over its items.
use mathlib.Core.Path.{subst}
use knative_source.Base.{
  ℕ, zero, suc, ◌+◌, ◌≡◌, refl, ◌∙◌, sym, ap, ap₂, ◌≤◌, ◌<◌, Option, none, some, List, [], ◌∷◌, map,
  take, All, arith,
}
use knative_source.Base.Memory.{
  reserve, write, SameOn, SameOn-before, SameOn-after, Grows, Grows-reserve, Grows-write,
  Grows-trans, write_same, write_other, IsCopy, IsCopy-plain, IsDeepCopy, IsDeepCopy-both,
  IsDeepCopy-struct,
}
use knative_source.Api.Types.{YipYapSource}
use knative_source.Api.Cells.{Parts, Slice, TypeMeta, SourceCell, ListCell, Mem, sources_of}
use knative_source.Api.DeepCopy.{
  PartCopies, source_deep_copy_into, copy_items, make_items, copy_sources, list_deep_copy_into,
}
use knative_source.Api.DeepCopy.Slices.{elements}
use knative_source.Api.DeepCopy.Structs.{PartLaws, view_source, IsStoredSource, source-IsDeepCopy}

module _ (k : Parts) (parts : PartCopies k) {C L : Type 0} (laws : PartLaws k parts C L) where
  -- A copy of the first elements has as many.
  take-copy_items :
      (n : ℕ) (ss : List (SourceCell k)) (m : Mem k)
      → take n (copy_items k parts (take n ss) m).0 ≡ (copy_items k parts (take n ss) m).0
  unfolding copy_items
  take-copy_items zero ss m = refl
  take-copy_items (suc n) [] m = refl
  take-copy_items (suc n) (s ∷ ss) m =
      let (s', m1) = source_deep_copy_into k parts s m in ap (λ t. s' ∷ t) (take-copy_items n ss m1)

  abbrev pub view_items : Mem k → List (SourceCell k) → List (TypeMeta × YipYapSource C)
  view_items m = map (view_source k parts laws m)

  abbrev pub IsStoredItems : Mem k → List (SourceCell k) → Type 0
  IsStoredItems m = All (IsStoredSource k parts laws m)

  items-stable :
      (m g : Mem k) (ss : List (SourceCell k))
      → IsStoredItems m ss
      → SameOn 0 m.next g m
      → view_items g ss ≡ view_items m ss
  items-stable m g [] st same = refl
  items-stable m g (s ∷ ss) st same =
      ap₂ (λ v vs. v ∷ vs) ((source-IsDeepCopy k parts laws).stable m g s st.0 same)
        (items-stable m g ss st.1 same)

  items_stored :
      (m g : Mem k) (ss : List (SourceCell k)) → IsStoredItems m ss → Grows m g → IsStoredItems g ss
  items_stored m g [] st grows = tt
  items_stored m g (s ∷ ss) st grows =
      ((source-IsDeepCopy k parts laws).stored m g s st.0 grows, items_stored m g ss st.1 grows)

  items-IsCopy :
      (m : Mem k) (ss : List (SourceCell k))
      → IsStoredItems m ss
      → IsCopy view_items m ss (copy_items k parts ss m)
  unfolding copy_items
  items-IsCopy m [] st = IsCopy-plain view_items m [] (λ g. refl)
  items-IsCopy m (s ∷ ss) st =
      let d = source-IsDeepCopy k parts laws in
      let (s', m1) = source_deep_copy_into k parts s m in
      let one = d.copies m s st.0 in
      let two = items-IsCopy m1 ss (items_stored m m1 ss st.1 one.grows) in
      let m2 = (copy_items k parts ss m1).1 in
      record {
        grows = Grows-trans one.grows two.grows;
        keeps = λ g same.
            ap₂ (λ v vs. v ∷ vs) (one.keeps g (SameOn-before m.next m1 m2 g two.grows same))
              (two.keeps g (SameOn-after m m1 m2 g one.grows.next_le same)
                ∙ items-stable m m1 ss st.1 one.grows.same);
      }

  abbrev pub view_slice : Mem k → Option Slice → List (TypeMeta × YipYapSource C)
  view_slice m none = []
  view_slice m (some s) = view_items m (elements s.len (sources_of k (m.cell s.array)))

  abbrev pub IsStoredSlice : Mem k → Option Slice → Type 0
  IsStoredSlice m none = Unit
  IsStoredSlice m (some s) =
      (s.array < m.next)
      × (ss : List (SourceCell k)) × (sources_of k (m.cell s.array) ≡ some ss)
      × IsStoredItems m (take s.len ss)

  make_items-IsCopy :
      (m : Mem k) (s : Slice) (ss : List (SourceCell k))
      → sources_of k (m.cell s.array) ≡ some ss
      → IsStoredItems m (take s.len ss)
      → IsCopy view_slice m (some s) (make_items k parts m.next s.len (some ss) (reserve m).1)
  unfolding make_items reserve write
  make_items-IsCopy m s ss found st =
      let m1 = (reserve m).1 in
      let items = take s.len ss in
      let inner = items-IsCopy m1 items (items_stored m m1 items st (Grows-reserve m)) in
      let (items', m2) = copy_items k parts items m1 in
      let grown : m.next + 1 ≤ m2.next = inner.grows.next_le in
      record {
        grows = Grows-write m m2 m.next _ (Grows-trans (Grows-reserve m) inner.grows) (omega arith);
        keeps = λ g same.
            ap (λ c. view_items g (elements s.len (sources_of k c)))
              (same m.next (omega arith) (omega (arith, grown)) ∙ write_same m.next _ m2)
            ∙ ap (view_items g) (take-copy_items s.len ss m1)
            ∙ inner.keeps g (λ a low high.
              same a (omega (arith, low)) high
              ∙ write_other m.next _ m2 a (λ e. omega (arith, e, low)))
            ∙ items-stable m m1 items st (Grows-reserve m).same
            ∙ sym (ap (λ o. view_items m (elements s.len o)) found);
      }

  sources-IsDeepCopy : IsDeepCopy view_slice IsStoredSlice (copy_sources k parts)
  unfolding copy_sources reserve
  sources-IsDeepCopy = record { stable = stable; stored = stored; copies = copies }
    where
      stable :
          (m g : Mem k) (t : Option Slice)
          → IsStoredSlice m t
          → SameOn 0 m.next g m
          → view_slice g t ≡ view_slice m t
      stable m g none st same = refl
      stable m g (some s) (low, ss, found, st) same =
          ap (λ c. view_items g (elements s.len (sources_of k c))) (same s.array (omega arith) low)
          ∙ ap (λ o. view_items g (elements s.len o)) found
          ∙ items-stable m g (take s.len ss) st same
          ∙ sym (ap (λ o. view_items m (elements s.len o)) found)

      stored : (m g : Mem k) (t : Option Slice) → IsStoredSlice m t → Grows m g → IsStoredSlice g t
      stored m g none st grows = tt
      stored m g (some s) (low, ss, found, st) grows = (
        omega (arith, grows.next_le),
        ss,
        ap (sources_of k) (grows.same s.array (omega arith) low) ∙ found,
        items_stored m g (take s.len ss) st grows,
      )

      copies :
          (m : Mem k) (t : Option Slice)
          → IsStoredSlice m t
          → IsCopy view_slice m t (copy_sources k parts t m)
      copies m none st = IsCopy-plain view_slice m none (λ g. refl)
      copies m (some s) (low, ss, found, st) =
          subst
            (λ o. IsCopy view_slice m (some s) (make_items k parts m.next s.len o (reserve m).1))
            (sym found) (make_items-IsCopy m s ss found st)

  abbrev pub view_list : Mem k → ListCell k → TypeMeta × L × List (TypeMeta × YipYapSource C)
  view_list m l = (l.type_meta, laws.view_list_meta m l.list_meta, view_slice m l.items)

  abbrev pub IsStoredList : Mem k → ListCell k → Type 0
  IsStoredList m l = laws.IsStoredListMeta m l.list_meta × IsStoredSlice m l.items

  pub list-IsDeepCopy : IsDeepCopy view_list IsStoredList (list_deep_copy_into k parts)
  unfolding list_deep_copy_into
  list-IsDeepCopy =
      IsDeepCopy-struct (λ (l : ListCell k). (l.list_meta, l.items))
        (λ l (a, b). record { type_meta = l.type_meta; list_meta = a; items = b })
        (λ l (a, b). (l.type_meta, a, b)) _ _ _ (λ l p. refl) (λ l p v. refl)
        (IsDeepCopy-both _ _ _ _ _ _ laws.list_meta sources-IsDeepCopy)
