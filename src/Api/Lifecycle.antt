-- ===== src/Api/Lifecycle.antt =====
-- pkg/apis/sources/v1alpha1/yipyapsource_lifecycle.go
pub mod Ready
use knative_source.Base.{
  Bool, not, Option, none, some, List, [], ◌∷◌, if◌then◌else◌, Str, str_eq, ◌==◌,
}
use knative_source.Base.Bytes.{bytes}
use knative_source.Knative.Condition.{Condition, ConditionManager}
use knative_source.Api.Types.{YipYapSourceStatus}

abbrev pub condition_sink_provided : Str
condition_sink_provided = bytes "SinkProvided"

abbrev pub condition_deployed : Str
condition_deployed = bytes "Deployed"

-- The dependents that `yipyapSourceCondSet` is made with.
abbrev pub yipyap_dependents : List Str
yipyap_dependents = condition_sink_provided ∷ condition_deployed ∷ []

-- `m` is the manager of `yipyapSourceCondSet`. A format with its arguments stands for the text.
module _ (m : ConditionManager) where
  open m use {Conditions}

  abbrev pub Status : Type 0
  Status = YipYapSourceStatus Conditions

  unfoldable pub get_condition : Str → Status → Option Condition
  get_condition t s = m.get t s.conditions

  unfoldable pub initialize_conditions : Status → Status
  initialize_conditions s = record s { conditions = m.initialize s.conditions }

  unfoldable pub is_ready : Status → Bool
  is_ready s = m.is_happy s.conditions

  sink_condition : Option Str → Conditions → Conditions
  sink_condition none c =
      m.mark_unknown condition_sink_provided (bytes "SinkEmpty") (bytes "Sink has no URI") c
  sink_condition (some text) c =
      if not (text == [])
      then m.mark_true condition_sink_provided c
      else m.mark_unknown condition_sink_provided (bytes "SinkEmpty") (bytes "Sink has no URI") c

  unfoldable pub mark_sink : Option Str → Status → Status
  unfolding sink_condition
  mark_sink uri s = record s { sink_uri = uri; conditions = sink_condition uri s.conditions }

  unfoldable pub mark_no_sink : Str → Str → Status → Status
  mark_no_sink reason message s = record s {
    conditions = m.mark_false condition_sink_provided reason message s.conditions;
  }

  unfoldable pub mark_deployed : Status → Status
  mark_deployed s = record s { conditions = m.mark_true condition_deployed s.conditions }

  unfoldable pub mark_not_deployed : Str → Str → Status → Status
  mark_not_deployed reason message s = record s {
    conditions = m.mark_false condition_deployed reason message s.conditions;
  }

  unfoldable pub mark_deploying : Str → Str → Status → Status
  mark_deploying reason message s = record s {
    conditions = m.mark_unknown condition_deployed reason message s.conditions;
  }
