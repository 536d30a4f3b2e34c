-- ===== src/Network/Devices.antt =====
-- The state of the multi-runtime network managers, PodDevices of
-- pkg/network/MultiRuntimeNetworking.go, and the addresses inside a pod's block: getNextSubPodIP of
-- pkg/network/ContainerNetworking.go. A map of a PodDevices is shared by the copies of the struct;
-- here the copy in the manager's table is the one that is read and written.
pub mod Frame
pub mod Blocks
pub mod Sequence
pub mod Drift
use feather_multiruntimenetw.Common.{
  ℕ, suc, ◌+◌, ◌-◌, ◌%◌, ◌^◌, Bool, true, false, List, [], ◌∷◌, ◌++◌, Option, none, some, Text,
  text_eq, codes, M, Ret, ok, err, Error, message, Outcome, done, panic, stuck, ◌>>=◌, pure,
  if◌then◌else◌, ◌==◌, nat_eq, length, get_elem?, set,
}
use feather_multiruntimenetw.Common.Dict.{Dict, lookup, insert}
use feather_multiruntimenetw.Network.Ip.{Ip, ip2int, int2ip, u32}
use feather_multiruntimenetw.Network.Kernel.{Link}
use feather_multiruntimenetw.Network.Addresses.{AddressManager, get_max_ips_per_pod}

pub record PodDevices : Type 0 where
  pub base_addr : Ip
  pub pod_bridge : Option Link
  pub addresses_used : Dict Text Link
  pub internal_devices : Dict Text (List ℕ)
  pub to_subpod_bpf_map : Option ℕ
  pub from_subpod_bpf_map : Option ℕ
  pub from_localhost_bpf_maps : Dict Text (Option ℕ)
  pub links_to_keep : List (Option ℕ)
  pub maps_to_keep : List (Option ℕ)
  pub bpf_prog_link : Option ℕ
  pub bpf_to_prog : Option ℕ
  pub bpf_from_prog : Option ℕ

-- The zero value, which a missing key gives too.
abbrev pub no_devices : PodDevices
no_devices = record {
  base_addr = [];
  pod_bridge = none;
  addresses_used = [];
  internal_devices = [];
  to_subpod_bpf_map = none;
  from_subpod_bpf_map = none;
  from_localhost_bpf_maps = [];
  links_to_keep = [];
  maps_to_keep = [];
  bpf_prog_link = none;
  bpf_to_prog = none;
  bpf_from_prog = none;
}

-- `getNextSubPodIP` under IPv6 writes into the byte slice of the base address itself, so that
-- the base address becomes the address that is returned.
next_in_place : ℕ → PodDevices → Outcome (Ret Ip × PodDevices)
next_in_place used pod_state = elim (get_elem? pod_state.base_addr 15) [
  | none ↦ panic
  | some b ↦
      let next_addr = set pod_state.base_addr 15 ((b + (used + 1)) % 256) in
      done (ok next_addr, record pod_state { base_addr = next_addr })
]

-- `getNextSubPodIP`; the text of the error is given without the address that ends it.
unfoldable pub get_next_sub_pod_ip : AddressManager → M PodDevices (Ret Ip)
unfolding next_in_place
get_next_sub_pod_ip am pod_state =
    let used = length pod_state.addresses_used in
    if used == get_max_ips_per_pod am - 1
    then done (err (message (codes "No IP addresses left for pod starting with")), pod_state)
    else if length pod_state.base_addr == 4
    then elim (ip2int pod_state.base_addr) [
      | none ↦ panic
      | some start ↦ done (ok (int2ip (u32 (start + used + 1))), pod_state)
    ]
    else next_in_place used pod_state

-- The fields of the manager, with the address manager and the machine that it works on.
pub record Node (W : Type 0) : Type 0 where
  pub pod_namespaces : Dict Text ℕ
  pub pod_devices : Dict Text PodDevices
  pub addresses : AddressManager
  pub world : W

-- `GetNetNs` of pkg/network/NetNsManagement.go
unfoldable pub get_net_ns : Text → Text → Text
get_net_ns namespace pod = namespace ++ codes "-" ++ pod

-- `mrn.podDevices[name]`
abbrev pub device_or : Option PodDevices → PodDevices
device_or none = no_devices
device_or (some d) = d

module _ {W : Type 0} where
  -- A call that works on the machine alone.
  abbrev pub kern : {A : Type 0} → M W A → M (Node W) A
  kern m s = elim (m s.world) [
    | done r ↦ done (r.0, record s { world = r.1 })
    | panic ↦ panic
    | stuck ↦ stuck
  ]

  -- A call of the address manager.
  abbrev pub addr : {A : Type 0} → M AddressManager A → M (Node W) A
  addr m s = elim (m s.addresses) [
    | done r ↦ done (r.0, record s { addresses = r.1 })
    | panic ↦ panic
    | stuck ↦ stuck
  ]

  abbrev pub device : Text → M (Node W) PodDevices
  device name s = done (device_or (lookup name s.pod_devices), s)

  abbrev pub set_device : Text → PodDevices → M (Node W) (Unit {0})
  set_device name d s = done (tt, record s { pod_devices = insert name d s.pod_devices })

  -- `getNextSubPodIP(mrn.podDevices[name])`
  unfoldable pub next_ip : Text → M (Node W) (Ret Ip)
  next_ip name s = elim (get_next_sub_pod_ip s.addresses (device_or (lookup name s.pod_devices))) [
    | done r ↦ done (r.0, record s { pod_devices = insert name r.1 s.pod_devices })
    | panic ↦ panic
    | stuck ↦ stuck
  ]
