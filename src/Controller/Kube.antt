-- ===== src/Controller/Kube.antt =====
-- The Kubernetes objects that the controller builds: k8s.io/api, as far as the program sets or reads
-- their fields.
use knative_source.Base.{ℕ, Bool, Option, List, Str}
use knative_source.Base.Dict.{Dict}

-- `corev1.EnvVar`: a value, or the key of a Secret.
pub data EnvValue : Type 0 where
  literal : Str → EnvValue
  secret_key : Str → Str → EnvValue

pub record EnvVar : Type 0 where
  pub name : Str
  pub value : EnvValue

pub record ContainerPort : Type 0 where
  pub name : Str
  pub container_port : ℕ
  pub protocol : Str

pub record VolumeMount : Type 0 where
  pub name : Str
  pub mount_path : Str

-- `corev1.Probe` with an HTTP GET.
pub record HttpProbe : Type 0 where
  pub path : Str
  pub port : ℕ
  pub scheme : Str

pub record Container : Type 0 where
  pub name : Str
  pub image : Str
  pub ports : List ContainerPort
  pub env : List EnvVar
  pub volume_mounts : List VolumeMount
  pub liveness_probe : HttpProbe
  pub readiness_probe : HttpProbe

-- A volume with an EmptyDir.
pub record Volume : Type 0 where
  pub name : Str

pub record PodSpec : Type 0 where
  pub containers : List Container
  pub volumes : List Volume
  pub service_account_name : Str

pub record PodTemplate : Type 0 where
  pub labels : Dict Str Str
  pub spec : PodSpec

-- `metav1.OwnerReference` of a controller.
pub record OwnerReference : Type 0 where
  pub owner_kind : Str
  pub owner_name : Str
  pub owner_uid : Str
  pub controller : Bool

pub data TriState : Type 0 where
  condition_true condition_false condition_unknown : TriState

-- `appsv1.DeploymentCondition`
pub record DeploymentCondition : Type 0 where
  pub type_name : Str
  pub status : TriState
  pub reason : Str
  pub message : Str

pub record Deployment : Type 0 where
  pub namespace : Str
  pub name : Str
  pub labels : Dict Str Str
  pub owner_references : List OwnerReference
  pub replicas : Option ℕ
  pub match_labels : Dict Str Str
  pub template : PodTemplate
  pub conditions : List DeploymentCondition
