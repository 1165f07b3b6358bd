-- ===== src/Base/Bytes/Split.antt =====
-- Splitting undoes joining.
use knative_source.Base.{
  ℕ, ◌≡◌, refl, ◌∙◌, ap, false, Bool-cases, inl, inr, eq_refl, List, [], ◌∷◌, ◌++◌, arith,
}
use knative_source.Base.{Str, nat_eq, ◌==◌, All}
use knative_source.Base.Bytes.{cons_head, split, join}

-- A byte that a text does not hold.
abbrev pub Lacks : ℕ → Str → Type 0
Lacks sep = All (λ c. (c == sep) ≡ false)

split-append : (sep : ℕ) (p s : Str) → Lacks sep p → split sep (p ++ (sep ∷ s)) ≡ p ∷ split sep s
unfolding split
split-append sep [] s h = ground arith
split-append sep (c ∷ p) s h = ground (arith, split-append sep p s h.1)

split_lacking : (sep : ℕ) (p : Str) → Lacks sep p → split sep p ≡ p ∷ []
unfolding split
split_lacking sep [] h = refl
split_lacking sep (c ∷ p) h = ground (arith, split_lacking sep p h.1)

pub split-join :
    (sep : ℕ) (p : Str) (ps : List Str)
    → All (Lacks sep) (p ∷ ps)
    → split sep (join sep (p ∷ ps)) ≡ p ∷ ps
unfolding join
split-join sep p [] h = split_lacking sep p h.0
split-join sep p (q ∷ ps) h =
    split-append sep p (join sep (q ∷ ps)) h.0 ∙ ap (λ r. p ∷ r) (split-join sep q ps h.1)

cons_head_twice :
    (c d : ℕ) (r rest : List Str)
    → cons_head c (cons_head d r ++ rest) ≡ cons_head c (cons_head d r) ++ rest
unfolding cons_head
cons_head_twice c d [] rest = refl
cons_head_twice c d (x ∷ xs) rest = refl

cons_head-split :
    (sep c : ℕ) (p : Str) (rest : List Str)
    → cons_head c (split sep p ++ rest) ≡ cons_head c (split sep p) ++ rest
unfolding split cons_head
cons_head-split sep c [] rest = refl
cons_head-split sep c (d ∷ p) rest = elim (Bool-cases (d == sep)) [
  | inl same ↦ rw same refl
  | inr other ↦ rw other (cons_head_twice c d (split sep p) rest)
]

-- A separator ends a part, whatever stands before it.
pub split_at_sep : (sep : ℕ) (p s : Str) → split sep (p ++ (sep ∷ s)) ≡ split sep p ++ split sep s
unfolding split
split_at_sep sep [] s = rw (eq_refl sep) refl
split_at_sep sep (c ∷ p) s = elim (Bool-cases (c == sep)) [
  | inl same ↦ rw same (ap (λ r. [] ∷ r) (split_at_sep sep p s))
  | inr other ↦
      rw other (ap (cons_head c) (split_at_sep sep p s) ∙ cons_head-split sep c p (split sep s))
]
