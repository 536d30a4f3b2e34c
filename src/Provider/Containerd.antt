-- ===== src/Provider/Containerd.antt =====
-- ContainerdBackend of pkg/provider/backend_containerd.go: what it calls, and the options that it
-- makes. The backend has no state of its own.
pub mod Tasks
pub mod Volumes
pub mod Options
pub mod Create
pub mod ReadOnly
use feather_multiruntimenetw.Common.{
  ℕ, List, Bool, Option, Text, M, Ret, ok, err, Error, library, message, wrapped, codes,
}
use feather_multiruntimenetw.Common.Dict.{Dict}
use feather_multiruntimenetw.Provider.Spec.{ContainerPort, Secret}
use feather_multiruntimenetw.Provider.Host.{Got}

-- `containerd.ProcessStatus`
pub data ProcessStatus : Type 0 where
  is_created is_running is_pausing is_paused is_stopped is_unknown : ProcessStatus

-- Of `containerd.Status` and of `containers.Container` what the backend reads.
pub record TaskStatus : Type 0 where
  pub status : ProcessStatus
  pub exit_status : ℕ
  pub exit_time : ℕ

pub record Info : Type 0 where
  pub id : Text
  pub created_at : ℕ

-- `specs.Mount`, whose type is always "bind".
pub record Mount : Type 0 where
  pub source : Text
  pub destination : Text
  pub options : List Text

-- The options that the backend gives, by their names; an image that is nil is `none`.
pub data SpecOpt : Type 0 where
  with_process_cwd : Text → SpecOpt
  with_env : List Text → SpecOpt
  with_cpu_cfs : ℕ → ℕ → SpecOpt
  with_memory_limit : ℕ → SpecOpt
  with_mounts : List Mount → SpecOpt
  with_host_namespace with_host_hosts_file with_host_resolvconf : SpecOpt
  with_network_namespace : Text → SpecOpt
  with_image_config : Option ℕ → SpecOpt
  with_image_config_args : Option ℕ → List Text → SpecOpt

pub data ContainerOpt : Type 0 where
  with_image with_image_config_labels with_image_stop_signal : Option ℕ → ContainerOpt
  with_snapshotter : ContainerOpt
  with_new_snapshot : Text → Option ℕ → ContainerOpt
  with_port_labels with_mount_labels : Text → ContainerOpt
  with_new_spec : List SpecOpt → ContainerOpt

-- The client of containerd, go-cni's and Go's encoding of JSON, `%q`, uuid, the file system and
-- the pod network manager. A container, a task, a process, an image and a resolver are numbers.
pub record Client (W : Type 0) : Type 0 where
  pub home : Text
  pub set_path : Text
  pub containers : M W (Ret (List Text))
  pub load_container : Text → M W (Got ℕ)
  pub container_info : ℕ → M W (Ret Info)
  pub get_task : ℕ → M W (Got ℕ)
  pub task_status : ℕ → M W (Ret TaskStatus)
  pub start_task : ℕ → M W (Ret (Unit {0}))
  pub kill_task : ℕ → ℕ → M W (Ret (Unit {0}))
  pub delete_task : ℕ → M W (Ret (Unit {0}))
  pub delete_container : ℕ → M W (Ret (Unit {0}))
  pub get_image : Text → M W (Ret ℕ)
  pub delete_image : Text → M W (Ret (Unit {0}))
  pub parse_docker_ref : Text → Ret (Text × Text)
  pub new_resolver : Text → M W (Ret ℕ)
  pub pull_image : Text → ℕ → M W (Ret ℕ)
  pub new_container : Text → List ContainerOpt → M W (Ret ℕ)
  pub new_task : ℕ → Bool → M W (Ret ℕ)
  pub wait_task : ℕ → M W (Ret (Unit {0}))
  pub new_uuid : M W Text
  pub exec_process : ℕ → Text → Bool → List Text → M W (Ret ℕ)
  pub wait_process : ℕ → M W (Ret ℕ)
  pub start_process : ℕ → M W (Ret (Unit {0}))
  pub exit_code : ℕ → M W (Ret ℕ)
  pub delete_process : ℕ → M W (Unit {0})
  pub mkdir_all : Text → M W (Ret (Unit {0}))
  pub mkdir_temp : M W (Ret Text)
  pub create_file : Text → M W (Ret ℕ)
  pub write_file : Text → Text → M W (Ret (Unit {0}))
  pub new_container_logger : Text → M W (Ret ℕ)
  pub net_ns_path : Text → Text → M W (Ret Text)
  pub quote : Text → Text
  pub marshal_ports : List ContainerPort → Ret Text
  pub marshal_mounts : List Mount → Ret Text
  pub config_map_data : ℕ → Dict Text Text
  pub secret_data : Secret → Dict Text Text
  pub secret_string_data : Secret → Dict Text Text

-- `errors.Wrap(err, "containerd")`
abbrev pub wrap_containerd : {A : Type 0} → Ret A → Ret A
wrap_containerd (ok a) = ok a
wrap_containerd (err e) = err (wrapped (codes "containerd") e)

-- The error of a container or a task that was not got.
abbrev pub not_got : Error
not_got = library (codes "container or task")
