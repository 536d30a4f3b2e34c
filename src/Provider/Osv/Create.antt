-- ===== src/Provider/Osv/Create.antt =====
-- CreateInstance and UpdateInstance of pkg/provider/backend_osv.go.
use feather_multiruntimenetw.Common.{
  ℕ, List, [], ◌∷◌, ◌++◌, Bool, true, false, not, Option, none, some, Text, text_eq, nat_eq, codes,
  M, Ret, ok, err, ◌>>=◌, ◌>>◌, pure, get, modify, or_return, ◌==◌, if◌then◌else◌, length, ltb, ◌/◌,
  ◌^◌,
}
use feather_multiruntimenetw.Common.Dict.{lookup, insert}
use feather_multiruntimenetw.Common.Decimal.{decimal}
use feather_multiruntimenetw.Common.Split.{join}
use feather_multiruntimenetw.Common.Path.{join_path}
use feather_multiruntimenetw.Storage.{clean_name}
use feather_multiruntimenetw.Provider.Spec.{
  Instance, ContainerPort, PullPolicy, pull_always, pull_if_not_present, pull_other,
}
use feather_multiruntimenetw.Provider.Identifier.{split_identifier_into_parts}
use feather_multiruntimenetw.Provider.Osv.{
  Machine, Osv, OsvExtras, VmState, VmConfig, unset, waiting, VmStatus, on_machine, wrap_osv,
}
use feather_multiruntimenetw.Provider.Osv.Paths.{
  image_disk_path, instance_dir, instance_conf_path, instance_moni_path, instance_sock_path,
}
use feather_multiruntimenetw.Provider.Osv.Mounts.{all_extras}
use feather_multiruntimenetw.Provider.Osv.Images.{pull_instance_image}
use feather_multiruntimenetw.Provider.Osv.Stop.{delete_instance, deref, no_platform, qemu}

-- Whether the image is pulled.
abbrev pub needs_pull : Bool → PullPolicy → Bool
needs_pull there pull_always = true
needs_pull there pull_if_not_present = not there
needs_pull there pull_other = false

-- The command line: the address options, the command and its arguments, or a script if none of
-- these is given.
unfoldable pub command_line : List Text → Instance → List Text
command_line address i = elim (address ++ i.container.command ++ i.container.args) [
  | [] ↦ codes "runscript" ∷ codes "/run/default;" ∷ []
  | c ∷ cmd ↦ c ∷ cmd
]

-- The network: the device that was made, or the bridge of the library.
unfoldable pub networking : Text → List ContainerPort → Text × Text
networking [] [] = (codes "bridge", codes "virbr0")
networking [] (p ∷ ports) = (codes "nat", codes "virbr0")
networking (c ∷ dev) ports = (codes "tap", c ∷ dev)

unfoldable pub vm_cpus : Instance → ℕ
vm_cpus i = if ltb 0 i.container.cpu_limit then i.container.cpu_limit else 1

unfoldable pub vm_memory : Instance → ℕ
vm_memory i = if ltb 0 i.container.memory_limit then i.container.memory_limit / 2 ^ 20 else 1024

unfoldable pub first_extras : ℕ → OsvExtras
first_extras memory = record {
  vm_proc = [];
  vm_args =
      codes "-object"
      ∷ (codes "memory-backend-file,id=mem,size="
          ++ decimal memory
          ++ codes "M,mem-path=/dev/shm,share=on")
      ∷ codes "-numa"
      ∷ codes "node,memdev=mem"
      ∷ [];
  vm_opts = codes "--rootfs=zfs" ∷ codes "--verbose" ∷ [];
}

abbrev last_or : Text → List Text → Text
last_or found [] = found
last_or found (part ∷ parts) = last_or part parts

abbrev rule : ℕ → ContainerPort → Text × Text
rule host_port p = (decimal host_port, decimal p.container_port)

module _ {W : Type 0} (m : Machine W) where
  -- The rule of a port without a port of the host: it gets one that is free, and is left out if
  -- there is none.
  unfoldable pub free_rule :
      ContainerPort → M W (List (Text × Text)) → Ret ℕ → M W (List (Text × Text))
  free_rule p rest (ok n) = rest >>= λ rules. pure (rule n p ∷ rules)
  free_rule p rest (err e) = rest

  -- The loop over the ports.
  unfoldable pub nat_rules : List ContainerPort → M W (List (Text × Text))
  nat_rules [] = pure []
  nat_rules (p ∷ ports) =
      let rest = nat_rules ports in
      if p.host_port == 0
      then (m.available_port >>= λ port. free_rule p rest port)
      else (rest >>= λ rules. pure (rule p.host_port p ∷ rules))

  unfoldable pub address_options : Instance → Text → Text → M W (List Text)
  address_options i [] ip = pure []
  address_options i (c ∷ dev) ip = do
    gateway ← m.gateway_address i.namespace i.pod_name
    pure ((codes "--ip=eth0," ++ ip ++ codes ",255.255.255.0 --defaultgw=" ++ gateway) ∷ [])

  unfoldable pub vm_config :
      Instance → Text → List Text → Text × Text → List (Text × Text) → Text → VmConfig
  vm_config i image cmd net rules mac = record {
    name = i.id;
    cmd = join b' ' cmd;
    instance_dir = instance_dir m i;
    monitor = instance_moni_path m i;
    config_file = instance_conf_path m i;
    image = image;
    memory = vm_memory i;
    cpus = vm_cpus i;
    networking = net.0;
    bridge = net.1;
    nat_rules = rules;
    mac = mac;
    vnc_file = instance_sock_path m i;
  }

  -- The configuration of the hypervisor.
  unfoldable pub store_config : Instance → Text → VmConfig → M W (Ret (Unit {0}))
  store_config i hypervisor conf =
      if hypervisor == qemu
      then (do
        made ← m.mkdir_all (instance_dir m i)
        or_return (wrap_osv made) λ _. (do stored ← m.store_config conf; pure (wrap_osv stored)))
      else pure no_platform

  -- The state that is replaced.
  unfoldable pub last_state : Option ℕ → M (Osv W) VmState
  last_state none = pure unset
  last_state (some a) = deref (some a) >>= λ status. pure status.state

  -- A new status, behind a new pointer.
  unfoldable pub put_status : Instance → VmState → M (Osv W) (Ret (Unit {0}))
  put_status i last =
      let status : VmStatus = record {
        name = last_or [] (split_identifier_into_parts i.id);
        state = waiting;
        last_termination_state = last;
        image = i.container.image;
        container_id = codes "capstan://" ++ i.id;
      } in
      modify (λ t. record t {
        instance_statuses = insert i.id (length t.memory) t.instance_statuses;
        memory = t.memory ++ status ∷ [];
      })
      >> pure (ok tt)

  -- The status of an instance that was made.
  unfoldable pub record_status : Instance → M (Osv W) (Ret (Unit {0}))
  record_status i = do
    s ← get
    last ← last_state (lookup i.id s.instance_statuses)
    put_status i last

  -- `CreateInstance`, once the volumes are known.
  unfoldable pub configure :
      Instance
      → Text
      → List Text
      → Text × Text
      → List (Text × Text)
      → Text
      → OsvExtras
      → M (Osv W) (Ret (Unit {0}))
  configure i hypervisor cmd net rules mac extras = do
    modify (λ s. record s { instance_extras = insert i.id extras s.instance_extras })
    let image = image_disk_path m i.container.image hypervisor
    stored ←
        on_machine
          (store_config i hypervisor (vm_config i image (extras.vm_opts ++ cmd) net rules mac))
    or_return stored λ _. record_status i

  -- `CreateInstance`, once the image is there.
  unfoldable pub assemble : Instance → Text → M (Osv W) (Ret (Unit {0}))
  assemble i hypervisor = do
    (dev, ip, mac) ← on_machine (m.create_vm_tun i.namespace i.pod_name i.container.name)
    address ← on_machine (address_options i dev ip)
    rules ← on_machine (nat_rules i.container.ports)
    extras ← on_machine (all_extras m i 0 (first_extras (vm_memory i)) i.volume_mounts)
    or_return (wrap_osv extras) λ e.
        configure i hypervisor (command_line address i) (networking dev i.container.ports) rules mac
          e

  -- The pull of the image, if it is to be pulled.
  unfoldable pub ensure_image : Instance → Text → M W (Ret (Unit {0}))
  ensure_image i hypervisor = do
    there ← m.exists (join_path (m.repo_path ∷ codes "fledge" ∷ clean_name i.container.image ∷ []))
    let pull = pull_instance_image m i.container.image hypervisor
    if needs_pull there i.container.image_pull_policy then pull else pure (ok tt)

  -- `CreateInstance`, on the configuration of the image.
  unfoldable pub with_hypervisor : Instance → Ret Text → M (Osv W) (Ret (Unit {0}))
  with_hypervisor i conf = or_return (wrap_osv conf) λ hypervisor. (do
    pulled ← on_machine (ensure_image i hypervisor)
    or_return (wrap_osv pulled) λ _. assemble i hypervisor)

  -- `CreateInstance` after its call of `DeleteInstance`.
  unfoldable pub create_prepared : Instance → M (Osv W) (Ret (Unit {0}))
  create_prepared i = do
    conf ← on_machine (m.image_hypervisor i.container.image)
    with_hypervisor i conf

  -- `CreateInstance`; what `DeleteInstance` returns is dropped.
  unfoldable pub create_instance : Instance → M (Osv W) (Ret (Unit {0}))
  create_instance i = delete_instance m i >> create_prepared i

  -- `UpdateInstance`
  unfoldable pub update_instance : Instance → M (Osv W) (Ret (Unit {0}))
  update_instance i = do deleted ← delete_instance m i; or_return deleted λ _. create_instance i
