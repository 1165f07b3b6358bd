-- ===== src/Api/DeepCopy/Slices.antt =====
-- The copies of slices, in DeepCopyInto.
use knative_source.Base.{
  ℕ, zero, suc, ◌≡◌, refl, ◌∙◌, sym, ap, ◌<◌, Option, none, some, List, [], ◌∷◌, Str, take, arith,
}
use knative_source.Base.Memory.{
  reserve, write, alloc, SameOn, Grows, Grows-reserve, Grows-write, write_same, IsCopy,
  IsCopy-plain, IsDeepCopy,
}
use knative_source.Api.Cells.{Parts, Slice, Mem, strings_of}
use knative_source.Api.DeepCopy.{copy_strings, make_copy}

pub take-take {ℓ} : {A : Type ℓ} (n : ℕ) (xs : List A) → take n (take n xs) ≡ take n xs
take-take zero xs = refl
take-take (suc n) [] = refl
take-take (suc n) (x ∷ xs) = ap (λ t. x ∷ t) (take-take n xs)

-- The elements of a slice, from its array.
abbrev pub elements {ℓ} : {A : Type ℓ} → ℕ → Option (List A) → List A
elements n none = []
elements n (some xs) = take n xs

module _ (k : Parts) where
  abbrev pub view_strings : Mem k → Option Slice → List Str
  view_strings m none = []
  view_strings m (some s) = elements s.len (strings_of k (m.cell s.array))

  -- A slice in memory: its array was allocated, and holds strings.
  abbrev pub IsStoredStrings : Mem k → Option Slice → Type 0
  IsStoredStrings m none = Unit
  IsStoredStrings m (some s) =
      (s.array < m.next) × (xs : List Str) × (strings_of k (m.cell s.array) ≡ some xs)

  make_copy-IsCopy :
      (m : Mem k) (s : Slice) (xs : List Str) (o : Option (List Str))
      → strings_of k (m.cell s.array) ≡ o
      → o ≡ some xs
      → IsCopy (view_strings) m (some s) (make_copy k s.len o m)
  unfolding make_copy alloc reserve write
  make_copy-IsCopy m s xs none found e = absurd (cc)
  make_copy-IsCopy m s xs (some ys) found e = record {
    grows = Grows-write m (reserve m).1 m.next _ (Grows-reserve m) (omega arith);
    keeps = λ g same.
        let fresh = same m.next (omega arith) (omega arith) ∙ write_same m.next _ (reserve m).1 in
        ap (λ c. elements s.len (strings_of k c)) fresh
        ∙ take-take s.len ys
        ∙ sym (ap (elements s.len) found);
  }

  pub strings-IsDeepCopy : IsDeepCopy view_strings IsStoredStrings (copy_strings k)
  unfolding copy_strings
  strings-IsDeepCopy = record { stable = stable; stored = stored; copies = copies }
    where
      stable :
          (m g : Mem k) (t : Option Slice)
          → IsStoredStrings m t
          → SameOn 0 m.next g m
          → view_strings g t ≡ view_strings m t
      stable m g none st same = refl
      stable m g (some s) st same =
          ap (λ c. elements s.len (strings_of k c)) (same s.array (omega arith) st.0)

      stored :
          (m g : Mem k) (t : Option Slice) → IsStoredStrings m t → Grows m g → IsStoredStrings g t
      stored m g none st grows = tt
      stored m g (some s) (low, xs, found) grows = (
        omega (arith, grows.next_le),
        xs,
        ap (strings_of k) (grows.same s.array (omega arith) low) ∙ found,
      )

      copies :
          (m : Mem k) (t : Option Slice)
          → IsStoredStrings m t
          → IsCopy view_strings m t (copy_strings k t m)
      copies m none st = IsCopy-plain view_strings m none (λ g. refl)
      copies m (some s) (low, xs, found) = make_copy-IsCopy m s xs _ refl found
