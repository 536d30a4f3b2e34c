-- ===== src/Tests/Provider.antt =====
-- Pods on a host that answers every call, with one enabled backend.
use feather_multiruntimenetw.Common.{
  List, [], ◌∷◌, ◌≡◌, refl, true, false, none, some, text_eq, nat_eq, codes, ok, Outcome, done,
  panic, stuck, Ends, Returns, pure, if◌then◌else◌, not,
}
use feather_multiruntimenetw.Provider.Spec.{
  Container, Pod, secret, ContainerState, pull_always, pod_running, pod_failed, pod_pending,
}
use feather_multiruntimenetw.Provider.Identifier.{
  split_identifier_into_parts, pod_and_container_to_identifier,
}
use feather_multiruntimenetw.Provider.Identifier.Laws.{
  split_identifier_into_parts-pod_and_container_to_identifier,
}
use feather_multiruntimenetw.Provider.Host.{Host, Provider, found}
use feather_multiruntimenetw.Provider.Instances.{
  mount_volumes, volumes_by_name, on_backend, with_image, new_instance,
}
use feather_multiruntimenetw.Provider.Volumes.{new_instance_volume, expand, object_of}
use feather_multiruntimenetw.Provider.Instances.Mounts.{MountedAll, mount_volumes-Mounted}
use feather_multiruntimenetw.Provider.Pods.{
  create_one, create_instances, start_instances, deploy, create_pod, update_pod, delete_pod,
  get_pod, is_k8s_app, phase_of,
}
use feather_multiruntimenetw.Provider.Pods.Phases.{any_ended, any_waiting, phase_of_lem}
use feather_multiruntimenetw.Provider.Pods.Lifecycle.{Failed}
use feather_multiruntimenetw.Provider.Pods.Outcomes.{
  Created, create_pod-Created, get_pod-create_pod,
}
use feather_multiruntimenetw.Provider.Pods.Updates.{Answers, update_pod-create_pod}
use feather_multiruntimenetw.Provider.Pods.Tables.{Reads, delete_pod-Reads}
use feather_multiruntimenetw.Provider.Pods.Panics.{create_pod_crash}

abbrev pub Quiet : Type 0
Quiet = Unit {0}

abbrev pub sample_host : Host Quiet
sample_host = record {
  parse_docker_ref = λ image. some image;
  image_get_config = λ image. pure (ok (codes "osv"));
  get_secret = λ name namespace. pure (found 3);
  get_config_map = λ name namespace. pure (found 4);
  get_service_account = λ name namespace. pure (found name);
  create_instance = λ backend i. pure (ok tt);
  start_instance = λ backend i. pure (ok tt);
  delete_instance = λ backend i. pure (ok tt);
  get_instance_status = λ backend i. pure (ok (record { running = true; terminated = false }));
  get_instance_logs = λ backend i. pure (ok 5);
  run_in_instance = λ backend i cmd. pure (ok tt);
  init_pod_network = λ namespace name. pure (ok tt);
  stop_pod_network = λ namespace name. pure (ok tt);
}

abbrev pub web : Container
web = record {
  name = codes "web";
  image = codes "img";
  command = [];
  args = [];
  working_dir = [];
  ports = [];
  env = [];
  cpu_limit = 0;
  cpu_limit_millis = 0;
  memory_limit = 0;
  image_pull_policy = pull_always;
  tty = false;
  volume_mounts = record { name = codes "v"; mount_path = codes "/v"; read_only = false } ∷ [];
}

abbrev pub sample_pod : Pod
sample_pod = record {
  namespace = codes "ns";
  name = codes "p";
  labels = [];
  volumes =
      record { name = codes "v"; source = secret (record { name = codes "s"; optional = none }) }
      ∷ [];
  init_containers = [];
  containers = web ∷ [];
  host_network = false;
  service_account_name = codes "default";
}

abbrev with_osv : Provider Quiet
with_osv = record { backends = (codes "osv", 1) ∷ []; pods = []; instances = []; world = tt }

abbrev left_by : {A : Type 0} → Provider Quiet → Outcome (A × Provider Quiet) → Provider Quiet
left_by s (done (a, t)) = t
left_by s panic = s
left_by s stuck = s

create_pod-Created_example :
    Returns (Created sample_pod with_osv) (create_pod sample_host sample_pod with_osv)
unfolding is_k8s_app create_pod deploy create_instances create_one start_instances new_instance
    with_image on_backend mount_volumes volumes_by_name new_instance_volume expand object_of
create_pod-Created_example = create_pod-Created sample_host sample_pod with_osv refl

sample_host-Answers : Answers sample_host
sample_host-Answers = record {
  deletes = λ b i w. tt;
  inits = λ namespace name w. tt;
  stops = λ namespace name w. tt;
}

update_pod-create_pod_example : Returns Failed (
    update_pod sample_host sample_pod
      (left_by with_osv (create_pod sample_host sample_pod with_osv)))
unfolding is_k8s_app create_pod deploy create_instances create_one start_instances new_instance
    with_image on_backend mount_volumes volumes_by_name new_instance_volume expand object_of
    pod_and_container_to_identifier
update_pod-create_pod_example =
    update_pod-create_pod sample_host sample_host-Answers sample_pod with_osv
      (left_by with_osv (create_pod sample_host sample_pod with_osv)) web [] refl refl refl

get_pod-create_pod_example :
    Returns
      (λ r t. get_pod (codes "ns") (codes "p") t ≡ ok sample_pod)
      (create_pod sample_host sample_pod with_osv)
unfolding is_k8s_app create_pod deploy create_instances create_one start_instances new_instance
    with_image on_backend mount_volumes volumes_by_name new_instance_volume expand object_of
get_pod-create_pod_example =
    get_pod-create_pod sample_host sample_pod with_osv (λ e. absurd (not_empty e))
  where
    not_empty : codes "ns" ≡ [] → ⊥
    not_empty e = cc

create_pod_crash_example :
    Ends (λ r t. ⊥) (create_pod sample_host sample_pod (record with_osv { backends = [] }))
unfolding is_k8s_app
create_pod_crash_example =
    create_pod_crash sample_host sample_pod web [] (codes "img") (codes "osv")
      (record with_osv { backends = [] }) refl refl refl refl (λ w. refl) refl

-- One container has ended and one waits.
abbrev two_states : List ContainerState
two_states =
    record { running = false; terminated = true }
    ∷ record { running = false; terminated = false }
    ∷ []

phase_of_lem_example : phase_of two_states ≡ (
    if not (any_ended two_states)
    then pod_running
    else if not (any_waiting two_states)
    then pod_failed
    else pod_pending)
phase_of_lem_example = phase_of_lem two_states

split_identifier_into_parts-pod_and_container_to_identifier_example :
    split_identifier_into_parts (pod_and_container_to_identifier sample_pod (codes "web"))
    ≡ codes "ns" ∷ codes "p" ∷ codes "web" ∷ []
split_identifier_into_parts-pod_and_container_to_identifier_example =
    split_identifier_into_parts-pod_and_container_to_identifier sample_pod (codes "web")
      (λ e. absurd (not_empty e)) (refl, (refl, tt)) (refl, tt) (refl, (refl, (refl, tt)))
  where
    not_empty : codes "ns" ≡ [] → ⊥
    not_empty e = cc

mount_volumes-Mounted_example :
    Returns
      (λ r w'. MountedAll web.volume_mounts r)
      (mount_volumes sample_host sample_pod
        (volumes_by_name [] sample_pod.volumes)
        web.volume_mounts
        tt)
unfolding mount_volumes volumes_by_name new_instance_volume expand object_of
mount_volumes-Mounted_example = mount_volumes-Mounted sample_host sample_pod web.volume_mounts tt

delete_pod-Reads_example : Reads (delete_pod sample_host sample_pod)
delete_pod-Reads_example = delete_pod-Reads sample_host sample_pod
