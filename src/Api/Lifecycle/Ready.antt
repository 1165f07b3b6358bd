-- ===== src/Api/Lifecycle/Ready.antt =====
-- When a source is ready.
use knative_source.Base.{
  ◌≡◌, refl, ◌↔◌, true, Option, none, some, [], contains, Str, str_eq, str_beq, ◌==◌, arith,
  Bool-cases, inl, inr,
}
use knative_source.Knative.Condition.{
  ConditionManager, ConditionStatus, is_true, IsLiving, condition_ready, status_of, statuses,
  summary,
}
use knative_source.Api.Lifecycle.{
  Status, condition_sink_provided, condition_deployed, yipyap_dependents, mark_sink, mark_no_sink,
  mark_deployed, mark_not_deployed, mark_deploying, is_ready,
}

-- The five ways in which the controller marks a status.
pub data Mark : Type 0 where
  sink : Option Str → Mark
  no_sink : Str → Str → Mark
  deployed : Mark
  not_deployed : Str → Str → Mark
  deploying : Str → Str → Mark

dependent_sink : contains yipyap_dependents condition_sink_provided ≡ true
unfolding str_beq
dependent_sink = refl

dependent_deployed : contains yipyap_dependents condition_deployed ≡ true
unfolding str_beq
dependent_deployed = refl

module _ (m : ConditionManager) where
  unfoldable pub apply : Mark → Status m → Status m
  apply (sink uri) s = mark_sink m uri s
  apply (no_sink r t) s = mark_no_sink m r t s
  apply deployed s = mark_deployed m s
  apply (not_deployed r t) s = mark_not_deployed m r t s
  apply (deploying r t) s = mark_deploying m r t s

  -- Whether a condition of a status is True.
  abbrev pub Holds : Str → Status m → Type 0
  Holds t s = status_of m t s.conditions ≡ some is_true

module _ (m : ConditionManager) (living : IsLiving yipyap_dependents m) where
  abbrev pub ready_of : Status m → Option ConditionStatus
  ready_of s = status_of m condition_ready s.conditions

  -- The Ready condition sums up the two dependents.
  abbrev pub IsSummed : Status m → Type 0
  IsSummed s = ready_of s ≡ some (summary (statuses m yipyap_dependents s.conditions))

  mark_sink-IsSummed : (uri : Option Str) (s : Status m) → IsSummed (mark_sink m uri s)
  unfolding mark_sink
  mark_sink-IsSummed none s =
      living.ready-mark_unknown condition_sink_provided _ _ s.conditions dependent_sink
  mark_sink-IsSummed (some text) s = elim (Bool-cases (text == [])) [
    | inl blank ↦
        rw blank (living.ready-mark_unknown condition_sink_provided _ _ s.conditions dependent_sink)
    | inr set ↦ rw set (living.ready-mark_true condition_sink_provided s.conditions dependent_sink)
  ]

  mark_no_sink-IsSummed : (r t : Str) (s : Status m) → IsSummed (mark_no_sink m r t s)
  unfolding mark_no_sink summary
  mark_no_sink-IsSummed r t s = ground (
    arith,
    living.ready-mark_false condition_sink_provided r t s.conditions dependent_sink,
    living.get-mark_false condition_sink_provided r t s.conditions dependent_sink,
  )

  mark_not_deployed-IsSummed : (r t : Str) (s : Status m) → IsSummed (mark_not_deployed m r t s)
  unfolding mark_not_deployed summary
  mark_not_deployed-IsSummed r t s = ground (
    arith,
    living.ready-mark_false condition_deployed r t s.conditions dependent_deployed,
    living.get-mark_false condition_deployed r t s.conditions dependent_deployed,
  )

  pub apply-IsSummed : (k : Mark) (s : Status m) → IsSummed (apply m k s)
  unfolding apply mark_deployed mark_deploying
  apply-IsSummed (sink uri) s = mark_sink-IsSummed uri s
  apply-IsSummed (no_sink r t) s = mark_no_sink-IsSummed r t s
  apply-IsSummed deployed s =
      living.ready-mark_true condition_deployed s.conditions dependent_deployed
  apply-IsSummed (not_deployed r t) s = mark_not_deployed-IsSummed r t s
  apply-IsSummed (deploying r t) s =
      living.ready-mark_unknown condition_deployed r t s.conditions dependent_deployed

  pub IsSummed-ready :
      (s : Status m)
      → IsSummed s
      → (is_ready m s ≡ true) ↔ (Holds m condition_sink_provided s × Holds m condition_deployed s)
  unfolding is_ready summary
  IsSummed-ready s h = ground (arith, living.is_happy_iff s.conditions)

  -- Behind any of the five marks, on any status, a source is ready exactly when its sink is provided
  -- and its adapter deployed.
  pub is_ready-apply :
      (k : Mark) (s : Status m)
      → let s' = apply m k s in
        (is_ready m s' ≡ true)
        ↔ (Holds m condition_sink_provided s' × Holds m condition_deployed s')
  is_ready-apply k s = IsSummed-ready (apply m k s) (apply-IsSummed k s)
