-- ===== src/Tests/Conditions.antt =====
-- A manager of conditions that keeps its promises.
use knative_source.Base.{
  ◌≡◌, ◌↔◌, ap, List, refl, true, false, Bool, Option, none, some, [], ◌∷◌, contains, Str, str_eq,
  str_beq, str_beq_iff, ◌==◌, if◌then◌else◌, arith,
}
use knative_source.Knative.Condition.{
  Condition, ConditionManager, ConditionStatus, is_true, is_false, is_unknown, IsLiving,
  condition_ready, summary,
}
use knative_source.Api.Lifecycle.{condition_sink_provided, condition_deployed, yipyap_dependents}

pub record Conditions : Type 0 where
  pub sink : Option Condition
  pub deployed : Option Condition
  pub ready : Option Condition

-- The names of the two dependents and of the third condition are parameters here.
abbrev get : Str → Str → Str → Str → Conditions → Option Condition
get a b r t c =
    if a == t then c.sink else if b == t then c.deployed else if r == t then c.ready else none

abbrev put : Str → Str → Str → Condition → Conditions → Conditions
put a b t k c =
    if a == t
    then record c { sink = some k }
    else if b == t
    then record c { deployed = some k }
    else c

abbrev word : Option Condition → Option ConditionStatus
word none = none
word (some k) = some k.status

abbrev plain : ConditionStatus → Condition
plain s = record { status = s; reason = []; message = [] }

abbrev summed : Conditions → Conditions
summed c = record c { ready = some (plain (summary (word c.sink ∷ word c.deployed ∷ []))) }

abbrev or_unknown : Option Condition → Option Condition
or_unknown none = some (plain is_unknown)
or_unknown (some k) = some k

abbrev happy : Option Condition → Bool
happy none = false
happy (some k) = elim k.status [ is_true ↦ true | is_false ↦ false | is_unknown ↦ false ]

module _ (a b r : Str) where
  abbrev dependents : List Str
  dependents = a ∷ b ∷ []

  get-put :
      (t : Str) (k : Condition) (ready : Option Condition) (c : Conditions)
      → contains dependents t ≡ true
      → get a b r t (record (put a b t k c) { ready = ready }) ≡ some k
  get-put t k ready c h = ground arith

  get-put_other :
      (t u : Str) (k : Condition) (ready : Option Condition) (c : Conditions)
      → contains dependents u ≡ true
      → (t == u) ≡ false
      → get a b r u (record (put a b t k c) { ready = ready }) ≡ get a b r u c
  get-put_other t u k ready c h d =
      ground
        (arith, str_beq_iff a t, str_beq_iff a u, str_beq_iff b t, str_beq_iff b u, str_beq_iff t u)

  get-initialize :
      (t : Str) (c : Conditions) {k : Condition}
      → get a b r t c ≡ some k
      → get a b r t (record {
        sink = or_unknown c.sink;
        deployed = or_unknown c.deployed;
        ready = or_unknown c.ready;
      })
        ≡ some k
  get-initialize t c h = ground arith

  get-initialize_unset :
      (t : Str) (c : Conditions)
      → contains dependents t ≡ true
      → get a b r t c ≡ none
      → word (
          get a b r t (record {
            sink = or_unknown c.sink;
            deployed = or_unknown c.deployed;
            ready = or_unknown c.ready;
          }))
        ≡ some is_unknown
  get-initialize_unset t c h u = ground arith

happy_iff : (k : Option Condition) → (happy k ≡ true) ↔ (word k ≡ some is_true)
happy_iff k = ground arith

abbrev get_named : Str → Conditions → Option Condition
get_named = get condition_sink_provided condition_deployed condition_ready

abbrev put_named : Str → Condition → Conditions → Conditions
put_named = put condition_sink_provided condition_deployed

abbrev pub manager : ConditionManager
manager = record {
  Conditions = Conditions;
  get = get_named;
  initialize = λ c. record {
    sink = or_unknown c.sink;
    deployed = or_unknown c.deployed;
    ready = or_unknown c.ready;
  };
  is_happy = λ c. happy c.ready;
  mark_true = λ t c. summed (put_named t (plain is_true) c);
  mark_unknown =
      λ t r s c. summed (put_named t (record { status = is_unknown; reason = r; message = s }) c);
  mark_false = λ t r s c.
      record (put_named t (record { status = is_false; reason = r; message = s }) c) {
        ready = some (record { status = is_false; reason = r; message = s });
      };
}

abbrev a : Str
a = condition_sink_provided

abbrev b : Str
b = condition_deployed

pub living : IsLiving yipyap_dependents manager
unfolding str_beq
living = record {
  get-mark_true = λ t c h. ap word (get-put a b condition_ready t _ _ c h);
  get-mark_false = λ t r s c h. get-put a b condition_ready t _ _ c h;
  get-mark_unknown = λ t r s c h. get-put a b condition_ready t _ _ c h;
  other-mark_true = λ t u c h d. get-put_other a b condition_ready t u _ _ c h d;
  other-mark_false = λ t u r s c h d. get-put_other a b condition_ready t u _ _ c h d;
  other-mark_unknown = λ t u r s c h d. get-put_other a b condition_ready t u _ _ c h d;
  ready-mark_true = λ t c h. refl;
  ready-mark_false = λ t r s c h. refl;
  ready-mark_unknown = λ t r s c h. refl;
  initialize_set = λ t c h. get-initialize a b condition_ready t c h;
  initialize_unset = λ t c h u n. get-initialize_unset a b condition_ready t c h u;
  is_happy_iff = λ c. happy_iff c.ready;
}
