-- ===== src/Api/Types.antt =====
-- pkg/apis/sources/v1alpha1/yipyapsource_types.go
use knative_source.Base.{Bool, Option, List, Str}
use knative_source.Base.Bytes.{bytes}
use knative_source.Base.Dict.{Dict}
use knative_source.Base.Int.{ℤ}
use knative_source.Knative.{Destination}

-- `metav1.ObjectMeta`, as far as the program reads it.
pub record ObjectMeta : Type 0 where
  pub name : Str
  pub namespace : Str
  pub uid : Str
  pub generation : ℤ
  pub resource_version : Str
  pub finalizers : List Str
  -- Whether the deletion timestamp is set.
  pub is_deleted : Bool

pub record ApiKeyReference : Type 0 where
  pub name : Str
  pub key : Str

pub record YipYapSourceFilter : Type 0 where
  pub types : List Str
  pub monitor_ids : List Str
  pub severities : List Str

-- `YipYapSourceMode` is a string.
abbrev pub mode_auto : Str
mode_auto = bytes "auto"

abbrev pub mode_poll : Str
mode_poll = bytes "poll"

abbrev pub mode_stream : Str
mode_stream = bytes "stream"

-- The first two fields are those of the embedded `duckv1.SourceSpec`.
pub record YipYapSourceSpec : Type 0 where
  pub sink : Destination
  pub ce_overrides : Option (Dict Str Str)
  pub api_key_ref : ApiKeyReference
  pub base_url : Str
  pub filter : Option YipYapSourceFilter
  pub mode : Str
  pub service_account_name : Str

-- The first four fields are those of the embedded `duckv1.SourceStatus`, over the type of the
-- conditions.
pub record YipYapSourceStatus (C : Type 0) : Type 0 where
  pub conditions : C
  pub observed_generation : ℤ
  pub sink_uri : Option Str
  pub ce_attributes : List Str
  pub deployment_name : Str
  pub last_event_time : Option Str
  pub event_count : ℤ

pub record YipYapSource (C : Type 0) : Type 0 where
  pub meta : ObjectMeta
  pub spec : YipYapSourceSpec
  pub status : YipYapSourceStatus C
