-- ===== src/Provider/Spec.antt =====
-- What pkg/provider reads of a Kubernetes pod (package corev1), and the Instance types of
-- pkg/provider/instance.go, instance_volume.go and instance_volume_mount.go. A pointer to an
-- object whose contents are not read is a number.
use feather_multiruntimenetw.Common.{ℕ, Bool, List, Option, Text}
use feather_multiruntimenetw.Common.Dict.{Dict}

-- `SecretVolumeSource` and `ConfigMapVolumeSource`, and the same of a projection: the name of the
-- object, and the pointer to `Optional`.
pub record KeyedSource : Type 0 where
  pub name : Text
  pub optional : Option Bool

-- `VolumeProjection`, of whose members one is set.
pub data VolumeProjection : Type 0 where
  secret_projection config_map_projection : KeyedSource → VolumeProjection
  downward_api service_account_token other_projection : VolumeProjection

-- `HostPathVolumeSource`, with the pointer to its type.
pub record HostPath : Type 0 where
  pub path : Text
  pub type : Option Text

-- `VolumeSource`, of whose members one is set.
pub data VolumeSource : Type 0 where
  host_path : HostPath → VolumeSource
  empty_dir nfs other_source : VolumeSource
  secret config_map : KeyedSource → VolumeSource
  projected : List VolumeProjection → VolumeSource

pub record Volume : Type 0 where
  pub name : Text
  pub source : VolumeSource

pub record VolumeMount : Type 0 where
  pub name : Text
  pub mount_path : Text
  pub read_only : Bool

pub record ContainerPort : Type 0 where
  pub host_port : ℕ
  pub container_port : ℕ
  pub protocol : Text
  pub host_ip : Text

-- Of an environment variable, whether it has a `ValueFrom`.
pub record EnvVar : Type 0 where
  pub name : Text
  pub value : Text
  pub value_from : Bool

pub data PullPolicy : Type 0 where
  pull_always pull_if_not_present pull_other : PullPolicy

-- Of the limits, what `Cpu().Value()`, `Cpu().MilliValue()` and `Memory().Value()` return.
pub record Container : Type 0 where
  pub name : Text
  pub image : Text
  pub command : List Text
  pub args : List Text
  pub working_dir : Text
  pub ports : List ContainerPort
  pub env : List EnvVar
  pub cpu_limit : ℕ
  pub cpu_limit_millis : ℕ
  pub memory_limit : ℕ
  pub image_pull_policy : PullPolicy
  pub tty : Bool
  pub volume_mounts : List VolumeMount

pub record Pod : Type 0 where
  pub namespace : Text
  pub name : Text
  pub labels : Dict Text Text
  pub volumes : List Volume
  pub init_containers : List Container
  pub containers : List Container
  pub host_network : Bool
  pub service_account_name : Text

-- A secret that was looked up, or the one that is made up for a token.
pub data Secret : Type 0 where
  stored : ℕ → Secret
  token : Text → Text → Secret

pub record InstanceVolumeProjection : Type 0 where
  pub projection : VolumeProjection
  pub secret_object : Option (KeyedSource × Secret)
  pub config_map_object : Option (KeyedSource × ℕ)
  pub service_account_object : Option Secret

pub record InstanceVolume : Type 0 where
  pub id : Text
  pub volume : Volume
  pub secret_object : Option (KeyedSource × Secret)
  pub config_map_object : Option (KeyedSource × ℕ)
  pub projections : Option (List InstanceVolumeProjection)

pub record InstanceVolumeMount : Type 0 where
  pub volume_mount : VolumeMount
  pub volume : InstanceVolume

-- `Instance`; of the pod's metadata the namespace and the name.
pub record Instance : Type 0 where
  pub id : Text
  pub backend : ℕ
  pub container : Container
  pub volume_mounts : List InstanceVolumeMount
  pub host_network : Bool
  pub namespace : Text
  pub pod_name : Text

-- Of a container's state, which of `Running` and `Terminated` is set.
pub record ContainerState : Type 0 where
  pub running : Bool
  pub terminated : Bool

pub data PodPhase : Type 0 where
  pod_pending pod_running pod_failed : PodPhase

pub record PodStatus : Type 0 where
  pub phase : PodPhase
  pub init_container_statuses : List ContainerState
  pub container_statuses : List ContainerState
