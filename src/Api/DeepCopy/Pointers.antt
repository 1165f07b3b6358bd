-- ===== src/Api/DeepCopy/Pointers.antt =====
-- The copies of what a pointer leads to: DeepCopy, and the pointers inside structs.
use knative_source.Base.{ℕ, ◌+◌, ◌≡◌, refl, ◌∙◌, ap, ◌<◌, ◌≤◌, Option, none, some, arith, sym}
use mathlib.Core.Path.{subst}
use knative_source.Base.Memory.{
  reserve, write, SameOn, Grows, Grows-reserve, Grows-write, Grows-trans, write_same, write_other,
  IsCopy, IsCopy-plain, IsDeepCopy,
}
use knative_source.Api.Cells.{Parts, Kind, Mem}
use knative_source.Api.DeepCopy.{deep_copy, fill_new}

module _ (k : Parts) {T V : Type 0} (c : Kind k T) (view : Mem k → T → V) where
  abbrev pub view_cell : Mem k → Option T → Option V
  view_cell m none = none
  view_cell m (some t) = some (view m t)

  -- What a pointer stands for, nil apart.
  abbrev pub view_pointer : Mem k → Option ℕ → Option V
  view_pointer m none = none
  view_pointer m (some p) = view_cell m (c.unwrap (m.cell p))

-- The pointer leads to an allocated cell of its type.
abbrev pub IsStoredPointer :
    (k : Parts) {T : Type 0} → Kind k T → (Mem k → T → Type 0) → Mem k → Option ℕ → Type 0
IsStoredPointer k c IsStored m none = Unit
IsStoredPointer k c IsStored m (some p) =
    (p < m.next) × (t : _) × (c.unwrap (m.cell p) ≡ some t) × IsStored m t

module _ (k : Parts) {T V : Type 0} (c : Kind k T)
    (unwrap-wrap : (t : T) → c.unwrap (c.wrap t) ≡ some t) (view : Mem k → T → V)
    (IsStored : Mem k → T → Type 0) (into : T → Mem k → T × Mem k)
    (d : IsDeepCopy view IsStored into) where
  fill_new-IsCopy :
      (m : Mem k) (p : ℕ) (t : T)
      → c.unwrap (m.cell p) ≡ some t
      → IsStored m t
      → IsCopy (view_pointer k c view) m (some p) (fill_new k c into m.next (some t) (reserve m).1)
  unfolding fill_new reserve write
  fill_new-IsCopy m p t found st =
      let m1 = (reserve m).1 in
      let inner = d.copies m1 t (d.stored m m1 t st (Grows-reserve m)) in
      let grown : m.next + 1 ≤ (into t m1).1.next = inner.grows.next_le in
      let out = write m.next (c.wrap (into t m1).0) (into t m1).1 in
      record {
        grows =
            Grows-write m (into t m1).1 m.next _ (Grows-trans (Grows-reserve m) inner.grows)
              (omega arith);
        keeps = λ g same.
            ap (λ x. view_cell k c view g (c.unwrap x))
              (same m.next (omega arith) (omega (arith, grown)) ∙ write_same m.next _ (into t m1).1)
            ∙ ap (view_cell k c view g) (unwrap-wrap (into t m1).0)
            ∙ ap some (
                inner.keeps g (λ a low high.
                  same a (omega (arith, low)) high
                  ∙ write_other m.next _ (into t m1).1 a (λ e. omega (arith, e, low))))
            ∙ ap some (d.stable m m1 t st (Grows-reserve m).same)
            ∙ sym (ap (view_cell k c view m) found);
      }

  pub deep_copy-IsDeepCopy :
      IsDeepCopy (view_pointer k c view) (IsStoredPointer k c IsStored) (deep_copy k c into)
  unfolding deep_copy reserve
  deep_copy-IsDeepCopy = record { stable = stable; stored = stored; copies = copies }
    where
      stable :
          (m g : Mem k) (p : Option ℕ)
          → IsStoredPointer k c IsStored m p
          → SameOn 0 m.next g m
          → view_pointer k c view g p ≡ view_pointer k c view m p
      stable m g none st same = refl
      stable m g (some p) (low, t, found, st) same =
          ap (λ x. view_cell k c view g (c.unwrap x)) (same p (omega arith) low)
          ∙ ap (view_cell k c view g) found
          ∙ ap some (d.stable m g t st same)
          ∙ sym (ap (view_cell k c view m) found)

      stored :
          (m g : Mem k) (p : Option ℕ)
          → IsStoredPointer k c IsStored m p
          → Grows m g
          → IsStoredPointer k c IsStored g p
      stored m g none st grows = tt
      stored m g (some p) (low, t, found, st) grows = (
        omega (arith, grows.next_le),
        t,
        ap c.unwrap (grows.same p (omega arith) low) ∙ found,
        d.stored m g t st grows,
      )

      copies :
          (m : Mem k) (p : Option ℕ)
          → IsStoredPointer k c IsStored m p
          → IsCopy (view_pointer k c view) m p (deep_copy k c into p m)
      copies m none st = IsCopy-plain (view_pointer k c view) m none (λ g. refl)
      copies m (some p) (low, t, found, st) =
          subst
            (λ o.
              IsCopy (view_pointer k c view) m (some p) (fill_new k c into m.next o (reserve m).1))
            (sym found) (fill_new-IsCopy m p t found st)
