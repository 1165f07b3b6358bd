-- ===== src/Controller/Deployment.antt =====
-- pkg/reconciler/yipyapsource/resources/deployment.go
pub mod Env
pub mod Shape
pub mod RoundTrip
pub mod Process
pub mod Admitted
use knative_source.Base.{
  ℕ, Bool, true, not, ◌&&◌, Option, none, some, List, [], ◌∷◌, ◌++◌, if◌then◌else◌, length, ltb,
  Str, str_eq, ◌==◌,
}
use knative_source.Base.Bytes.{bytes, join}
use knative_source.Base.Dict.{Dict}
use knative_source.Api.Types.{ObjectMeta, YipYapSourceFilter, YipYapSourceSpec, YipYapSource}
use knative_source.Controller.Kube.{
  EnvVar, literal, secret_key, ContainerPort, VolumeMount, HttpProbe, Container, Volume, PodSpec,
  PodTemplate, OwnerReference, Deployment,
}

abbrev pub source_label_key : Str
source_label_key = bytes "sources.yipyap.run/source"

abbrev pub container_name : Str
container_name = bytes "source"

abbrev pub cursor_volume_name : Str
cursor_volume_name = bytes "cursor"

abbrev pub cursor_mount_path : Str
cursor_mount_path = bytes "/var/run/yipyap"

abbrev pub adapter_http_port : ℕ
adapter_http_port = 8080

unfoldable pub labels : ObjectMeta → Dict Str Str
labels meta = (source_label_key, meta.name) ∷ []

abbrev env_var : Str → Str → EnvVar
env_var name value = record { name = name; value = literal value }

-- A nil URL has an empty text.
abbrev pub url_text : Option Str → Str
url_text none = []
url_text (some text) = text

-- `json.Marshal` of the overrides (`none` is an error), and `kmeta.ChildName`.
module _ (marshal_overrides : Dict Str Str → Option Str) (child_name : Str → Str → Str) where
  filter_env : Option YipYapSourceFilter → List EnvVar
  filter_env none = []
  filter_env (some fl) =
      if ltb 0 (length fl.types)
      then env_var (bytes "YIPYAP_EVENT_FILTER") (join b',' fl.types) ∷ []
      else []

  overrides_env : Option (Dict Str Str) → List EnvVar
  overrides_env none = []
  overrides_env (some exts) =
      if ltb 0 (length exts)
      then elim (marshal_overrides exts) [
        | none ↦ []
        | some v ↦ env_var (bytes "K_CE_OVERRIDES") v ∷ []
      ]
      else []

  -- The variables of the adapter's container.
  unfoldable pub adapter_env : YipYapSourceSpec → Option Str → List EnvVar
  unfolding filter_env overrides_env
  adapter_env spec sink =
      (env_var (bytes "K_SINK") (url_text sink)
        ∷ env_var (bytes "YIPYAP_BASE_URL") spec.base_url
        ∷ record {
          name = bytes "YIPYAP_API_KEY";
          value = secret_key spec.api_key_ref.name spec.api_key_ref.key;
        }
        ∷ env_var (bytes "YIPYAP_MODE") spec.mode
        ∷ [])
      ++ (filter_env spec.filter ++ overrides_env spec.ce_overrides)

  abbrev probe : Str → HttpProbe
  probe path = record { path = path; port = adapter_http_port; scheme = bytes "HTTP" }

  adapter_container : YipYapSourceSpec → Option Str → Str → Container
  unfolding adapter_env
  adapter_container spec sink image = record {
    name = container_name;
    image = image;
    ports =
        record { name = bytes "http"; container_port = adapter_http_port; protocol = bytes "TCP" }
        ∷ [];
    env = adapter_env spec sink;
    volume_mounts = record { name = cursor_volume_name; mount_path = cursor_mount_path } ∷ [];
    liveness_probe = probe (bytes "/healthz");
    readiness_probe = probe (bytes "/readyz");
  }

  -- `kmeta.NewControllerRef`
  owner_reference : ObjectMeta → OwnerReference
  owner_reference meta = record {
    owner_kind = bytes "YipYapSource";
    owner_name = meta.name;
    owner_uid = meta.uid;
    controller = true;
  }

  unfoldable pub make_adapter_deployment :
      {C : Type 0} → YipYapSource C → Option Str → Str → Deployment
  unfolding labels adapter_container owner_reference
  make_adapter_deployment src sink image = record {
    namespace = src.meta.namespace;
    name = child_name (src.meta.name ++ bytes "-source-") src.meta.uid;
    labels = labels src.meta;
    owner_references = owner_reference src.meta ∷ [];
    replicas = some 1;
    match_labels = labels src.meta;
    template = record {
      labels = labels src.meta;
      spec = record {
        containers = adapter_container src.spec sink image ∷ [];
        volumes = record { name = cursor_volume_name } ∷ [];
        service_account_name =
            if not (src.spec.service_account_name == []) then src.spec.service_account_name else [];
      };
    };
    conditions = [];
  }
