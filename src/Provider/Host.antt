-- ===== src/Provider/Host.antt =====
-- What pkg/provider calls: image names and configurations, the listers of Kubernetes behind
-- pkg/manager, the backends by their handles, and the pod network manager.
use feather_multiruntimenetw.Common.{ℕ, List, Option, Text, M, Ret}
use feather_multiruntimenetw.Common.Dict.{Dict}
use feather_multiruntimenetw.Provider.Spec.{Pod, Instance, ContainerState}

-- The answer of a lister: the object, or an error that is `IsNotFound` or not.
pub data Got (A : Type 0) : Type 0 where
  found : A → Got A
  not_found unavailable : Got A

pub record Host (W : Type 0) : Type 0 where
  pub parse_docker_ref : Text → Option Text
  pub image_get_config : Text → M W (Ret Text)
  pub get_secret : Text → Text → M W (Got ℕ)
  pub get_config_map : Text → Text → M W (Got ℕ)
  pub get_service_account : Text → Text → M W (Got Text)
  pub create_instance : ℕ → Instance → M W (Ret (Unit {0}))
  pub start_instance : ℕ → Instance → M W (Ret (Unit {0}))
  pub delete_instance : ℕ → Instance → M W (Ret (Unit {0}))
  pub get_instance_status : ℕ → Instance → M W (Ret ContainerState)
  pub get_instance_logs : ℕ → Instance → M W (Ret ℕ)
  pub run_in_instance : ℕ → Instance → List Text → M W (Ret (Unit {0}))
  pub init_pod_network : Text → Text → M W (Ret (Unit {0}))
  pub stop_pod_network : Text → Text → M W (Ret (Unit {0}))

-- The tables of `Provider`, and the state of what it calls.
pub record Provider (W : Type 0) : Type 0 where
  pub backends : Dict Text ℕ
  pub pods : Dict Text Pod
  pub instances : Dict Text Instance
  pub world : W
