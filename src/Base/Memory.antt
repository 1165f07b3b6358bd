-- ===== src/Base/Memory.antt =====
-- Go's memory, as a deep copy sees it: cells at addresses that `new` and `make` hand out in order.
use knative_source.Base.{
  ℕ, ◌+◌, ◌≡◌, ◌≢◌, refl, ◌∙◌, ◌≤◌, ◌<◌, nat_eq, ◌==◌, if◌then◌else◌, arith, ap, ap₂,
}

pub record Memory (C : Type 0) : Type 0 where
  pub next : ℕ
  pub cell : ℕ → C

module _ {C : Type 0} where
  -- The address that the next allocation has.
  unfoldable pub reserve : Memory C → ℕ × Memory C
  reserve m = (m.next, record m { next = m.next + 1 })

  unfoldable pub write : ℕ → C → Memory C → Memory C
  write p c m = record m { cell = λ a. if a == p then c else m.cell a }

  unfoldable pub alloc : C → Memory C → ℕ × Memory C
  alloc c m = let (p, m') = reserve m in (p, write p c m')

  -- The two memories agree from one address up to another.
  abbrev pub SameOn : ℕ → ℕ → Memory C → Memory C → Type 0
  SameOn low high g m = (a : ℕ) → low ≤ a → a < high → g.cell a ≡ m.cell a

  -- What was allocated in `m` is in `g` as it was.
  pub record Grows (m g : Memory C) : Type 0 where
    pub next_le : m.next ≤ g.next
    pub same : SameOn 0 m.next g m

  pub Grows-trans : {l m n : Memory C} → Grows l m → Grows m n → Grows l n
  Grows-trans p q = record {
    next_le = omega (arith, p.next_le, q.next_le);
    same = λ a low high. q.same a low (omega (arith, p.next_le)) ∙ p.same a low high;
  }

  pub SameOn-before :
      (low : ℕ) (m n g : Memory C) → Grows m n → SameOn low n.next g n → SameOn low m.next g m
  SameOn-before lo m n g p s a low high =
      s a low (omega (arith, p.next_le)) ∙ p.same a (omega arith) high

  pub SameOn-after :
      (l m n g : Memory C) → l.next ≤ m.next → SameOn l.next n.next g n → SameOn m.next n.next g n
  SameOn-after l m n g p s a low high = s a (omega arith) high

  pub Grows-reserve : (m : Memory C) → Grows m (reserve m).1
  unfolding reserve
  Grows-reserve m = record { next_le = omega arith; same = λ a low high. refl }

  pub write_other : (p : ℕ) (c : C) (m : Memory C) (a : ℕ) → a ≢ p → (write p c m).cell a ≡ m.cell a
  unfolding write
  write_other p c m a apart = ground (arith, apart)

  pub write_same : (p : ℕ) (c : C) (m : Memory C) → (write p c m).cell p ≡ c
  unfolding write
  write_same p c m = ground arith

  -- A write to an address that `m` has not handed out.
  pub Grows-write :
      (m n : Memory C) (p : ℕ) (c : C) → Grows m n → m.next ≤ p → Grows m (write p c n)
  unfolding write
  Grows-write m n p c grows fresh = record {
    next_le = grows.next_le;
    same = λ a low high. write_other p c n a (λ e. omega (arith, e)) ∙ grows.same a low high;
  }

-- A value `t` of type `T` in a memory stands for the value `view m t`. `IsCopy` says of the result of
-- a copy that nothing which was allocated has changed, and that what the copy stands for rests on new
-- cells alone: it is the value of the original in each memory that agrees on them.
module _ {C T V : Type 0} where
  pub record IsCopy (view : Memory C → T → V) (m : Memory C) (t : T) (r : T × Memory C)
      : Type 0 where
    pub grows : Grows m r.1
    pub keeps : (g : Memory C) → SameOn m.next r.1.next g r.1 → view g r.0 ≡ view m t

  -- The values that `IsStored` admits rest on allocated cells, and are copied deeply.
  pub record IsDeepCopy (view : Memory C → T → V) (IsStored : Memory C → T → Type 0)
      (copy : T → Memory C → T × Memory C) : Type 0 where
    pub stable : (m g : Memory C) (t : T) → IsStored m t → SameOn 0 m.next g m → view g t ≡ view m t
    pub stored : (m g : Memory C) (t : T) → IsStored m t → Grows m g → IsStored g t
    pub copies : (m : Memory C) (t : T) → IsStored m t → IsCopy view m t (copy t m)

  -- A value without pointers is its own copy.
  pub IsCopy-plain :
      (view : Memory C → T → V) (m : Memory C) (t : T)
      → ((g : Memory C) → view g t ≡ view m t)
      → IsCopy view m t (t, m)
  IsCopy-plain view m t plain = record {
    grows = record { next_le = omega arith; same = λ a low high. refl };
    keeps = λ g same. plain g;
  }

module _ {C : Type 0} where
  abbrev pub copy_both :
      {S T : Type 0}
      → (S → Memory C → S × Memory C)
      → (T → Memory C → T × Memory C)
      → S × T
      → Memory C
      → (S × T) × Memory C
  copy_both copy copy' (s, t) m =
      let (s', m1) = copy s m in let (t', m2) = copy' t m1 in ((s', t'), m2)

  -- One copy after the other.
  pub IsDeepCopy-both :
      {S T V W : Type 0} (view : Memory C → S → V) (view' : Memory C → T → W)
      (IsStored : Memory C → S → Type 0) (IsStored' : Memory C → T → Type 0)
      (copy : S → Memory C → S × Memory C) (copy' : T → Memory C → T × Memory C)
      → IsDeepCopy view IsStored copy
      → IsDeepCopy view' IsStored' copy'
      → IsDeepCopy {V = V × W}
          (λ m (s, t). (view m s, view' m t))
          (λ m (s, t). IsStored m s × IsStored' m t)
          (copy_both copy copy')
  IsDeepCopy-both view view' IsStored IsStored' copy copy' d d' = record {
    stable = λ m g (s, t) (st, st') same.
        ap₂ (λ x y. (x, y)) (d.stable m g s st same) (d'.stable m g t st' same);
    stored = λ m g (s, t) (st, st') grows. (d.stored m g s st grows, d'.stored m g t st' grows);
    copies = λ m (s, t) (st, st').
        let (s', m1) = copy s m in
        let one = d.copies m s st in
        let two = d'.copies m1 t (d'.stored m m1 t st' one.grows) in
        record {
          grows = Grows-trans one.grows two.grows;
          keeps = λ g same.
              ap₂ (λ x y. (x, y))
                (one.keeps g (SameOn-before m.next m1 (copy' t m1).1 g two.grows same))
                (two.keeps g (SameOn-after m m1 (copy' t m1).1 g one.grows.next_le same)
                  ∙ d'.stable m m1 t st' one.grows.same);
        };
  }

  -- A struct whose other fields are copied as they are.
  pub IsDeepCopy-struct :
      {S T V W : Type 0} (parts : T → S) (rebuild : T → S → T) (look : T → V → W)
      (view : Memory C → S → V) (IsStored : Memory C → S → Type 0)
      (copy : S → Memory C → S × Memory C)
      → ((t : T) (s : S) → parts (rebuild t s) ≡ s)
      → ((t : T) (s : S) (v : V) → look (rebuild t s) v ≡ look t v)
      → IsDeepCopy view IsStored copy
      → IsDeepCopy
          (λ m t. look t (view m (parts t)))
          (λ m t. IsStored m (parts t))
          (λ t m. let (s', m') = copy (parts t) m in (rebuild t s', m'))
  IsDeepCopy-struct parts rebuild look view IsStored copy same_parts same_look d = record {
    stable = λ m g t st same. ap (look t) (d.stable m g (parts t) st same);
    stored = λ m g t st grows. d.stored m g (parts t) st grows;
    copies = λ m t st.
        let c = d.copies m (parts t) st in
        let s' = (copy (parts t) m).0 in
        record {
          grows = c.grows;
          keeps = λ g same.
              same_look t s' (view g (parts (rebuild t s')))
              ∙ ap (look t) (ap (view g) (same_parts t s') ∙ c.keeps g same);
        };
  }

  -- Values without pointers, each its own copy.
  pub IsDeepCopy-plain :
      {T : Type 0} → IsDeepCopy {C = C} (λ m (t : T). t) (λ m t. Unit {0}) (λ t m. (t, m))
  IsDeepCopy-plain = record {
    stable = λ m g t st same. refl;
    stored = λ m g t st grows. tt;
    copies = λ m t st. IsCopy-plain (λ g t. t) m t (λ g. refl);
  }
