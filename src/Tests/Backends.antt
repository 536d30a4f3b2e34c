-- ===== src/Tests/Backends.antt =====
-- Containers on a client that answers every call, and the control groups of a pod.
use feather_multiruntimenetw.Common.{
  [], ◌∷◌, ◌≡◌, refl, true, false, none, some, codes, ok, panic, Returns, pure, ◌>>=◌,
}
use feather_multiruntimenetw.Provider.Spec.{host_path, config_map, InstanceVolumeMount, KeyedSource}
use feather_multiruntimenetw.Provider.Host.{found}
use feather_multiruntimenetw.Provider.Containerd.{Client, is_running}
use feather_multiruntimenetw.Provider.Containerd.Volumes.{
  all_mounts, mounts_of, source_mounts, host_path_mounts, host_path_type, object_mounts,
  config_map_mounts, file_mounts,
}
use feather_multiruntimenetw.Provider.Containerd.ReadOnly.{GroupedRet, all_mounts-Grouped}
use feather_multiruntimenetw.Fledge.Cgroups.{
  Controller, create_cgroup_if_not_exists, set_memory_limit,
}
use feather_multiruntimenetw.Fledge.Cgroups.Missing.{version_1, set_memory_limit_panics}
use feather_multiruntimenetw.Tests.Provider.{Quiet}

abbrev sample_client : Client Quiet
sample_client = record {
  home = codes "/root";
  set_path = [];
  containers = pure (ok []);
  load_container = λ id. pure (found 1);
  container_info = λ n. pure (ok (record { id = codes "p_web"; created_at = 3 }));
  get_task = λ n. pure (found 2);
  task_status = λ n. pure (ok (record { status = is_running; exit_status = 0; exit_time = 0 }));
  start_task = λ n. pure (ok tt);
  kill_task = λ n signal. pure (ok tt);
  delete_task = λ n. pure (ok tt);
  delete_container = λ n. pure (ok tt);
  get_image = λ image. pure (ok 4);
  delete_image = λ image. pure (ok tt);
  parse_docker_ref = λ image. ok (image, codes "docker.io");
  new_resolver = λ domain. pure (ok 5);
  pull_image = λ image r. pure (ok 4);
  new_container = λ id opts. pure (ok 1);
  new_task = λ n tty. pure (ok 2);
  wait_task = λ n. pure (ok tt);
  new_uuid = pure (codes "uuid");
  exec_process = λ n id tty args. pure (ok 6);
  wait_process = λ n. pure (ok 7);
  start_process = λ n. pure (ok tt);
  exit_code = λ n. pure (ok 0);
  delete_process = λ n. pure tt;
  mkdir_all = λ path. pure (ok tt);
  mkdir_temp = pure (ok (codes "/tmp/1"));
  create_file = λ path. pure (ok 8);
  write_file = λ path s. pure (ok tt);
  new_container_logger = λ path. pure (ok 9);
  net_ns_path = λ ns pod. pure (ok (codes "/run/netns/ns-p"));
  quote = λ s. s;
  marshal_ports = λ ports. ok [];
  marshal_mounts = λ mounts. ok [];
  config_map_data = λ n. (codes "a", codes "1") ∷ (codes "b", codes "2") ∷ [];
  secret_data = λ s. [];
  secret_string_data = λ s. [];
}

abbrev directory : InstanceVolumeMount
directory = record {
  volume_mount = record { name = codes "d"; mount_path = codes "/d"; read_only = true };
  volume = record {
    id = codes "ns_p_d";
    volume = record {
      name = codes "d";
      source = host_path (record { path = codes "/srv/d"; type = some (codes "Directory") });
    };
    secret_object = none;
    config_map_object = none;
    projections = none;
  };
}

abbrev map_source : KeyedSource
map_source = record { name = codes "m"; optional = none }

abbrev files : InstanceVolumeMount
files = record {
  volume_mount = record { name = codes "m"; mount_path = codes "/m"; read_only = false };
  volume = record {
    id = codes "ns_p_m";
    volume = record { name = codes "m"; source = config_map map_source };
    secret_object = none;
    config_map_object = some (map_source, 1);
    projections = none;
  };
}

all_mounts-Grouped_example :
    Returns
      (λ r w. GroupedRet (directory ∷ files ∷ []) r)
      (all_mounts sample_client (directory ∷ files ∷ []) tt)
unfolding all_mounts mounts_of source_mounts host_path_mounts host_path_type object_mounts
    config_map_mounts file_mounts
all_mounts-Grouped_example = all_mounts-Grouped sample_client (directory ∷ files ∷ []) tt

abbrev sample_controller : Controller Quiet
sample_controller = record {
  is_unified = pure false;
  new_main_group = pure (some 1);
  new_systemd = λ name. pure tt;
  load_systemd = λ name. pure (some 2, false);
  delete_systemd = λ m. pure tt;
  update_memory = λ m limit. pure tt;
  update_cpu = λ m quota period. pure tt;
  add_proc = λ m pid. pure tt;
  new_group = λ main name. pure (some 3);
  delete_group = λ g. pure tt;
  group_memory = λ g limit. pure tt;
  group_cpu = λ g quota period. pure tt;
  group_add_proc = λ g pid. pure tt;
}

set_memory_limit_panics_example :
    (create_cgroup_if_not_exists sample_controller (codes "ns") (codes "p") (codes "web")
        >>= λ cg_name. set_memory_limit sample_controller cg_name 1000)
      (version_1 (some 1) [] tt)
    ≡ panic
set_memory_limit_panics_example =
    set_memory_limit_panics sample_controller (codes "ns") (codes "p") (codes "web") 1000 (some 1)
      [] tt refl
