-- ===== src/Base/Dict.antt =====
-- Go's `map[string]string` as an association list, with the insertion that `m[k] = v` makes.
use knative_source.Base.{◌≡◌, refl, Option, none, some, List, [], ◌∷◌, arith}
use knative_source.Base.{if◌then◌else◌, Eq, ◌==◌}

abbrev pub Dict {ℓ κ} : Type ℓ → Type κ → Type (ℓ ⊔ κ)
Dict K V = List (K × V)

module _ {ℓ κ} {K : Type ℓ} {V : Type κ} ⦃e : Eq K⦄ where
  unfoldable pub lookup : K → Dict K V → Option V
  lookup key [] = none
  lookup key ((old, value) ∷ rest) = if old == key then some value else lookup key rest

  unfoldable pub insert : K → V → Dict K V → Dict K V
  insert key value [] = (key, value) ∷ []
  insert key value ((old, other) ∷ rest) =
      if old == key then (key, value) ∷ rest else (old, other) ∷ insert key value rest

  pub lookup-insert :
      (key asked : K) (value : V) (m : Dict K V)
      → lookup asked (insert key value m) ≡ (if key == asked then some value else lookup asked m)
  unfolding lookup insert
  lookup-insert key asked value [] = refl
  lookup-insert key asked value ((old, other) ∷ rest) = ground (
    arith,
    lookup-insert key asked value rest,
    e.beq_iff key asked,
    e.beq_iff old asked,
    e.beq_iff old key,
  )
