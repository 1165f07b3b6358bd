-- ===== src/Tests/Admitted.antt =====
-- A run of the theorem on the adapter of an admitted source.
use knative_source.Base.{Option, none, some, Str, str_eq}
use knative_source.Base.Bytes.{bytes}
use knative_source.Base.Dict.{Dict}
use knative_source.Adapter.Config.{Config, CeOverridesEnvelope}
use knative_source.Webhook
use knative_source.Controller.Deployment.Env.{adapter_getenv}
use knative_source.Tests.Admission.{source_defaulted}
use knative_source.Tests.Environment.{child_name, secret}

abbrev marshal : Dict Str Str → Option Str
marshal exts = some (bytes "{}")

abbrev unmarshal : Str → Option CeOverridesEnvelope
unmarshal s = some (record { extensions = none })

abbrev environment : Str → Str
environment =
    adapter_getenv marshal child_name secret source_defaulted.spec (some (bytes "http://sink"))
