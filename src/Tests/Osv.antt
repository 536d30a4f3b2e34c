-- ===== src/Tests/Osv.antt =====
-- Virtual machines on a machine that answers every call.
use feather_multiruntimenetw.Common.{
  [], ◌≡◌, refl, ◌≢◌, true, false, some, text_eq, codes, ok, Outcome, done, panic, stuck, Ends,
  Returns, pure, get_elem?, ◌>>◌,
}
use feather_multiruntimenetw.Provider.Spec.{
  KeyedSource, VolumeMount, Instance, InstanceVolume, pull_other,
}
use feather_multiruntimenetw.Provider.Host.{Host, not_found}
use feather_multiruntimenetw.Provider.Volumes.{new_instance_volume}
use feather_multiruntimenetw.Provider.Osv.{Machine, Osv, VmConfig, Watcher, new_osv_backend}
use feather_multiruntimenetw.Provider.Osv.Core.{core}
use feather_multiruntimenetw.Provider.Osv.Mounts.{get_volume_mount_extras, all_extras}
use feather_multiruntimenetw.Provider.Osv.Stop.{
  delete_instance, on_platform, forget_status, deref, qemu,
}
use feather_multiruntimenetw.Provider.Osv.Start.{
  start_instance, start_there, start_found, start_with, launch, watch, watch_status, watch_read,
  start_processes, vm_command, exit,
}
use feather_multiruntimenetw.Provider.Osv.Create.{
  create_instance, create_prepared, with_hypervisor, ensure_image, assemble, configure,
  store_config, address_options, nat_rules, first_extras, record_status, last_state, put_status,
}
use feather_multiruntimenetw.Provider.Osv.Lifecycle.{started, ended, created, phase, cell_phase}
use feather_multiruntimenetw.Provider.Osv.Moves.{Follows}
use feather_multiruntimenetw.Provider.Osv.Steps.{
  Step, creates, starts, starting, further, without_watcher,
}
use feather_multiruntimenetw.Provider.Osv.Histories.{
  new_osv_backend-Valid, Settles, Step-Follows-Reach, exit-Returns-Reach,
}
use feather_multiruntimenetw.Provider.Osv.Told.{ToldOwn, told, get_instance_status-create_instance}
use feather_multiruntimenetw.Provider.Osv.Answers.{Answers}
use feather_multiruntimenetw.Provider.Osv.Starts.{create-start-runs}
use feather_multiruntimenetw.Provider.Osv.Refused.{IsError, secret_volume, optional_secret_refused}
use feather_multiruntimenetw.Tests.Provider.{Quiet, web, sample_pod, sample_host}

abbrev no_config : VmConfig
no_config = record {
  name = [];
  cmd = [];
  instance_dir = [];
  monitor = [];
  config_file = [];
  image = [];
  memory = 0;
  cpus = 0;
  networking = [];
  bridge = [];
  nat_rules = [];
  mac = [];
  vnc_file = [];
}

abbrev sample_machine : Machine Quiet
sample_machine = record {
  config_dir = codes "/home/.capstan";
  repo_path = codes "/home/.capstan/repository";
  search_instance = λ id. pure (id, qemu);
  stop_vm = λ id. pure (ok tt);
  delete_vm = λ id. pure (ok tt);
  store_config = λ c. pure (ok tt);
  load_config = λ name. pure (ok no_config);
  vm_command = λ c args. pure (ok 7);
  start_command = λ c. pure (ok tt);
  with_cancel = pure 8;
  cancel = λ c. pure tt;
  start_process = λ c name args. pure (ok tt);
  exists = λ path. pure true;
  mkdir_all = λ path. pure (ok tt);
  remove_all = λ path. pure (ok tt);
  create_file = λ path. pure (ok 9);
  write_to = λ f s. pure (ok tt);
  copy_to = λ f r. pure (ok tt);
  close_file = λ f. pure tt;
  write_file = λ path s. pure (ok tt);
  image_hypervisor = λ image. pure (ok qemu);
  new_ref = λ image.
      ok (record { registry = codes "docker.io"; tag = []; common_name = image; handle = 1 });
  marshal_info = λ info. ok [];
  image_layers = λ r. pure (ok []);
  blob_get = λ r d. pure (ok 1);
  to_tar_reader = λ b. pure (ok 2);
  get_tar_reader = λ b. pure (ok 3);
  next_name = λ r. pure (ok (codes "disk.qemu"));
  create_vm_tun = λ ns pod name. pure (codes "vtap", codes "10.0.0.2", []);
  gateway_address = λ ns pod. pure (codes "10.0.0.1");
  available_port = pure (ok 30000);
  now = pure 5;
  config_map_data = λ n. [];
  new_container_logger = λ path. pure (ok 4);
}

abbrev sample_vm : Instance
sample_vm = record {
  id = codes "p_web";
  backend = 1;
  container = record web { image_pull_policy = pull_other };
  volume_mounts = [];
  host_network = false;
  namespace = codes "ns";
  pod_name = codes "p";
}

abbrev other_vm : Instance
other_vm = record sample_vm { id = codes "p_db" }

abbrev left_by : {A : Type 0} → Osv Quiet → Outcome (A × Osv Quiet) → Osv Quiet
left_by s (done (a, t)) = t
left_by s panic = s
left_by s stuck = s

abbrev fresh : Osv Quiet
fresh = new_osv_backend tt

abbrev made : Osv Quiet
made = left_by fresh (create_instance sample_machine sample_vm fresh)

abbrev running_vm : Osv Quiet
running_vm = left_by made (start_instance sample_machine sample_vm made)

abbrev two_vms : Osv Quiet
two_vms = left_by running_vm (create_instance sample_machine other_vm running_vm)

made-Step : Step sample_machine fresh made
unfolding create_instance delete_instance on_platform forget_status create_prepared with_hypervisor
    ensure_image assemble address_options nat_rules all_extras first_extras configure store_config
    record_status last_state put_status
made-Step = creates sample_vm (ok tt) refl

not_started : created ≢ started
not_started e = cc

running-Step : Step sample_machine made running_vm
unfolding create_instance delete_instance on_platform forget_status create_prepared with_hypervisor
    ensure_image assemble address_options nat_rules all_extras first_extras configure store_config
    record_status last_state put_status start_instance start_there start_found start_with launch
    watch watch_status watch_read start_processes vm_command deref
running-Step = starts sample_vm (ok tt) not_started refl

Step-Follows-Reach_example : Follows (phase (core made)) (phase (core running_vm))
Step-Follows-Reach_example =
    Step-Follows-Reach sample_machine tt (further starting made-Step) running-Step

sample_machine-Settles : Settles sample_machine
sample_machine-Settles = record { cancels = λ c w. tt; closes = λ f w. tt; tells = λ w. tt }

abbrev sample_watcher : Watcher
sample_watcher = record { status = 0; context = 8; logs_file = 9; id = codes "p_web" }

exit-Returns-Reach_example :
    Returns
      (λ _ t. cell_phase (get_elem? t.memory 0) ≡ ended)
      (exit sample_machine sample_watcher 0
        (codes "exited gracefully")
        (without_watcher running_vm []))
unfolding create_instance delete_instance on_platform forget_status create_prepared with_hypervisor
    ensure_image assemble address_options nat_rules all_extras first_extras configure store_config
    record_status last_state put_status start_instance start_there start_found start_with launch
    watch watch_status watch_read start_processes vm_command deref
exit-Returns-Reach_example =
    exit-Returns-Reach sample_machine sample_machine-Settles tt [] sample_watcher [] 0
      (codes "exited gracefully") (further (further starting made-Step) running-Step) refl

get_instance_status-create_instance_example :
    ToldOwn (ok tt) (told other_vm running_vm) (told other_vm two_vms)
    × (told sample_vm two_vms ≡ told sample_vm running_vm)
unfolding create_instance delete_instance on_platform forget_status create_prepared with_hypervisor
    ensure_image assemble address_options nat_rules all_extras first_extras configure store_config
    record_status last_state put_status start_instance start_there start_found start_with launch
    watch watch_status watch_read start_processes vm_command deref
get_instance_status-create_instance_example =
    get_instance_status-create_instance sample_machine tt other_vm sample_vm (ok tt)
      (further (further starting made-Step) running-Step) refl (λ e. absurd (differ e))
  where
    differ : codes "p_web" ≡ codes "p_db" → ⊥
    differ e = cc

sample_machine-Answers : Answers sample_machine (λ id w. Unit {0})
sample_machine-Answers = record {
  searches = λ id w. tt;
  finds = λ id w f. refl;
  stops = λ id w. tt;
  deletes = λ id w. tt;
  is_qemu = λ image w. refl;
  looks = λ path w. tt;
  tunnels = λ ns pod name w. tt;
  gateways = λ ns pod w. tt;
  ports = λ w. tt;
  makes = λ path w. (tt, refl);
  stores = λ c w. (refl, tt);
  loads = λ name w. (no_config, refl);
  commands = λ c args w. (7, refl);
  contexts = λ w. tt;
  files = λ path w. (9, refl);
  runs = λ c w. (tt, refl);
  tells = λ w. tt;
}

create-start-runs_example :
    Returns
      (λ r t. (r ≡ ok tt) × (phase (core t) (codes "p_web") ≡ started))
      ((create_instance sample_machine sample_vm >> start_instance sample_machine sample_vm) fresh)
create-start-runs_example =
    create-start-runs sample_machine (λ id w. Unit {0}) sample_machine-Answers sample_vm fresh
      (λ e. absurd (named e)) refl refl (new_osv_backend-Valid tt)
  where
    named : codes "p_web" ≡ [] → ⊥
    named e = cc

abbrev forgetful_host : Host Quiet
forgetful_host = record sample_host { get_secret = λ name namespace. pure not_found }

abbrev optional_source : KeyedSource
optional_source = record { name = codes "s"; optional = some true }

abbrev at_v : VolumeMount
at_v = record { name = codes "v"; mount_path = codes "/v"; read_only = false }

optional_secret_refused_example :
    (iv : InstanceVolume) × (new_instance_volume forgetful_host sample_pod
        (secret_volume (codes "v") optional_source)
        tt
      ≡ done (ok iv, tt))
    × Ends
        (λ r _. IsError r)
        (get_volume_mount_extras sample_machine sample_vm 0
          (record { volume_mount = at_v; volume = iv })
          tt)
optional_secret_refused_example =
    optional_secret_refused forgetful_host sample_machine sample_pod (codes "v") optional_source
      sample_vm 0 at_v tt tt tt refl refl
