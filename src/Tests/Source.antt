-- ===== src/Tests/Source.antt =====
-- A source, and a controller in a cluster that keeps what it is sent.
use knative_source.Base.{true, false, none, some, [], ◌∷◌, ◌++◌, str_eq, ◌==◌}
use knative_source.Base.Bytes.{bytes}
use knative_source.Base.Int.{pos}
use knative_source.Base.Result.{ok, err}
use knative_source.Api.Types.{
  YipYapSource, YipYapSourceFilter, YipYapSourceSpec, YipYapSourceStatus,
}
use knative_source.Controller.Kube.{Deployment, DeploymentCondition, condition_true}
use knative_source.Controller.Reconcile.{not_found, Reconciler, Write, create, update}
use knative_source.Tests.Conditions.{Conditions, manager}

abbrev pub filter : YipYapSourceFilter
filter = record {
  types = bytes "run.yipyap.alert.*" ∷ bytes "run.yipyap.monitor.up.v1" ∷ [];
  monitor_ids = bytes "m1" ∷ [];
  severities = bytes "critical" ∷ [];
}

abbrev pub spec : YipYapSourceSpec
spec = record {
  sink = record {
    ref = some (record {
      kind = bytes "Service";
      namespace = [];
      name = bytes "sink";
      api_version = bytes "v1";
    });
    uri = none;
    ca_certs = none;
    audience = none;
  };
  ce_overrides = none;
  api_key_ref = record { name = bytes "secret"; key = [] };
  base_url = [];
  filter = some filter;
  mode = bytes "poll";
  service_account_name = [];
}

abbrev pub status_with : {C : Type 0} → C → YipYapSourceStatus C
status_with c = record {
  conditions = c;
  observed_generation = pos 0;
  sink_uri = none;
  ce_attributes = [];
  deployment_name = [];
  last_event_time = none;
  event_count = pos 0;
}

abbrev pub source_with : {C : Type 0} → C → YipYapSource C
source_with c = record {
  meta = record {
    name = bytes "src";
    namespace = bytes "ns";
    uid = bytes "u1";
    generation = pos 3;
    resource_version = bytes "7";
    finalizers = [];
    is_deleted = false;
  };
  spec = spec;
  status = status_with c;
}

abbrev pub unset : Conditions
unset = record { sink = none; deployed = none; ready = none }

abbrev pub source : YipYapSource Conditions
source = source_with unset

abbrev available : DeploymentCondition
available = record {
  type_name = bytes "Available";
  status = condition_true;
  reason = [];
  message = [];
}

abbrev pub stored : Write → Deployment
stored (create d) = record d { conditions = available ∷ [] }
stored (update d) = d

-- A Deployment is stored as it was asked for; templates are compared by their service accounts.
abbrev pub reconciler : Reconciler manager
reconciler = record {
  resolve = λ d s. ok (some (bytes "http://sink"));
  lister = λ namespace name. not_found;
  answer = λ w. ok (stored w);
  adapter_image = bytes "image";
  marshal_overrides = λ m. none;
  child_name = λ parent suffix. parent ++ suffix;
  template_equal = λ a b. a.spec.service_account_name == b.spec.service_account_name;
  replicas_equal = λ a b. true;
}

-- One in a cluster where a new Deployment has no condition yet.
abbrev pub fresh_cluster : Reconciler manager
fresh_cluster = record reconciler { answer = λ w. ok (record (stored w) { conditions = [] }) }

-- One whose sink does not resolve.
abbrev pub lost : Reconciler manager
lost = record reconciler { resolve = λ d s. err (bytes "no sink") }
