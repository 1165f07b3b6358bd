-- ===== src/Knative/Condition.antt =====
-- `apis.ConditionSet` and its manager.
use knative_source.Base.{
  ◌↔◌, ◌≡◌, ◌≢◌, Bool, true, false, Option, none, some, List, [], ◌∷◌, Str, str_eq, ◌==◌, contains,
  map,
}
use knative_source.Base.Bytes.{bytes}

pub data ConditionStatus : Type 0 where
  is_true is_false is_unknown : ConditionStatus

pub record Condition : Type 0 where
  pub status : ConditionStatus
  pub reason : Str
  pub message : Str

-- The conditions of an object, and what a manager does to them.
pub record ConditionManager : Type 1 where
  pub Conditions : Type 0
  pub get : Str → Conditions → Option Condition
  pub initialize : Conditions → Conditions
  pub is_happy : Conditions → Bool
  pub mark_true : Str → Conditions → Conditions
  pub mark_unknown : Str → Str → Str → Conditions → Conditions
  pub mark_false : Str → Str → Str → Conditions → Conditions

-- `apis.ConditionReady`
abbrev pub condition_ready : Str
condition_ready = bytes "Ready"

-- False if one condition is False, or else Unknown if one is Unknown or unset, or else True.
unfoldable pub summary : List (Option ConditionStatus) → ConditionStatus
summary [] = is_true
summary (some is_false ∷ rest) = is_false
summary (some is_true ∷ rest) = summary rest
summary (some is_unknown ∷ rest) = elim (summary rest) [ is_false ↦ is_false | _ ↦ is_unknown ]
summary (none ∷ rest) = elim (summary rest) [ is_false ↦ is_false | _ ↦ is_unknown ]

module _ (m : ConditionManager) where
  abbrev pub status_of : Str → m.Conditions → Option ConditionStatus
  status_of t c = elim (m.get t c) [ none ↦ none | some k ↦ some k.status ]

  abbrev pub statuses : List Str → m.Conditions → List (Option ConditionStatus)
  statuses ts c = map (λ t. status_of t c) ts

-- What `NewLivingConditionSet` promises for its dependents: a mark sets its condition and no other
-- dependent, the Ready condition sums the dependents up after each mark of one, and an
-- initialisation sets what is unset and leaves what is set.
pub record IsLiving (dependents : List Str) (m : ConditionManager) : Type 0 where
  pub get-mark_true :
      (t : Str) (c : m.Conditions)
      → contains dependents t ≡ true
      → status_of m t (m.mark_true t c) ≡ some is_true
  pub get-mark_false :
      (t r s : Str) (c : m.Conditions)
      → contains dependents t ≡ true
      → m.get t (m.mark_false t r s c)
        ≡ some (record { status = is_false; reason = r; message = s })
  pub get-mark_unknown :
      (t r s : Str) (c : m.Conditions)
      → contains dependents t ≡ true
      → m.get t (m.mark_unknown t r s c)
        ≡ some (record { status = is_unknown; reason = r; message = s })
  pub other-mark_true :
      (t u : Str) (c : m.Conditions)
      → contains dependents u ≡ true
      → (t == u) ≡ false
      → m.get u (m.mark_true t c) ≡ m.get u c
  pub other-mark_false :
      (t u r s : Str) (c : m.Conditions)
      → contains dependents u ≡ true
      → (t == u) ≡ false
      → m.get u (m.mark_false t r s c) ≡ m.get u c
  pub other-mark_unknown :
      (t u r s : Str) (c : m.Conditions)
      → contains dependents u ≡ true
      → (t == u) ≡ false
      → m.get u (m.mark_unknown t r s c) ≡ m.get u c
  pub ready-mark_true :
      (t : Str) (c : m.Conditions)
      → contains dependents t ≡ true
      → status_of m condition_ready (m.mark_true t c)
        ≡ some (summary (statuses m dependents (m.mark_true t c)))
  pub ready-mark_false :
      (t r s : Str) (c : m.Conditions)
      → contains dependents t ≡ true
      → status_of m condition_ready (m.mark_false t r s c) ≡ some is_false
  pub ready-mark_unknown :
      (t r s : Str) (c : m.Conditions)
      → contains dependents t ≡ true
      → status_of m condition_ready (m.mark_unknown t r s c)
        ≡ some (summary (statuses m dependents (m.mark_unknown t r s c)))
  pub initialize_set :
      (t : Str) (c : m.Conditions) {k : Condition}
      → m.get t c ≡ some k
      → m.get t (m.initialize c) ≡ some k
  pub initialize_unset :
      (t : Str) (c : m.Conditions)
      → contains dependents t ≡ true
      → m.get t c ≡ none
      → status_of m condition_ready c ≢ some is_true
      → status_of m t (m.initialize c) ≡ some is_unknown
  pub is_happy_iff :
      (c : m.Conditions) → (m.is_happy c ≡ true) ↔ (status_of m condition_ready c ≡ some is_true)
