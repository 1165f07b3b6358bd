-- ===== src/Adapter/Event.antt =====
-- What the adapter uses of a CloudEvent (github.com/cloudevents/sdk-go/v2, `ce.Event`).
use knative_source.Base.{Option}
use knative_source.Base.{Str}
use knative_source.Base.Dict.{Dict}

pub record CloudEvents : Type 1 where
  pub Event : Type 0
  pub spec_version : Event → Str
  pub id : Event → Str
  pub source : Event → Str
  pub type_name : Event → Str
  -- The time in RFC 3339 with nanoseconds, in UTC; `none` is the zero time.
  pub time : Event → Option Str
  pub subject : Event → Str
  pub data_content_type : Event → Str
  -- `none` is a nil slice.
  pub payload : Event → Option Str
  -- The extensions, each value as `fmt.Sprint` prints it, in the order of a map iteration.
  pub extensions : Event → Dict Str Str
  pub set_extension : Str → Str → Event → Event
  -- `json.Unmarshal` of an event; `none` is an error.
  pub unmarshal : Str → Option Event
