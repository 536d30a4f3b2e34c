-- ===== src/Network/Default.antt =====
-- pkg/network/DefaultNetworking.go: one bridge for all pods, and an address of the node's subnet
-- for each pod and each virtual machine.
use feather_multiruntimenetw.Common.{
  ℕ, List, [], ◌++◌, Option, Text, text_eq, codes, M, Ret, ok, ◌>>=◌, ◌>>◌, pure, or_return, get,
  done, panic, stuck,
}
use feather_multiruntimenetw.Common.Dict.{Dict, insert}
use feather_multiruntimenetw.Network.Ip.{Ip}
use feather_multiruntimenetw.Network.Kernel.{Kernel, Link, tuntap}
use feather_multiruntimenetw.Network.Addresses.{AddressManager, request_pod_ip, get_cni_if_ip}
use feather_multiruntimenetw.Network.Links.{
  rand_string_runes, setup_cni0, stop_cni0, setup_pod_net_ns, teardown_namespaces, dropped,
}
use feather_multiruntimenetw.Network.Devices.{get_net_ns}

-- The fields of `DefaultNetworkManager` that are used, with the address manager and the machine.
pub record Bridged (W : Type 0) : Type 0 where
  pub pod_namespaces : Dict Text ℕ
  pub bridge : Option Link
  pub addresses : AddressManager
  pub world : W

module _ {W : Type 0} where
  abbrev kern : {A : Type 0} → M W A → M (Bridged W) A
  kern m s = elim (m s.world) [
    | done r ↦ done (r.0, record s { world = r.1 })
    | panic ↦ panic
    | stuck ↦ stuck
  ]

  abbrev addr : {A : Type 0} → M AddressManager A → M (Bridged W) A
  addr m s = elim (m s.addresses) [
    | done r ↦ done (r.0, record s { addresses = r.1 })
    | panic ↦ panic
    | stuck ↦ stuck
  ]

module _ {W : Type 0} (k : Kernel W) (rounds : ℕ) where
  open k use {netns_delete_named, link_add, link_by_name, link_set_up, link_set_master, parse_ip}

  -- `InitContainerNetworking`
  unfoldable pub init_container_networking : M (Bridged W) (Ret (Unit {0}))
  init_container_networking = do
    s ← get
    brdevice ← kern (setup_cni0 k s.addresses)
    or_return brdevice λ link. (λ t. done (ok tt, record t { pod_namespaces = []; bridge = link }))

  -- `TeardownContainerNetworking`: the result is that of the last call.
  unfoldable pub teardown_container_networking : M (Bridged W) (Ret (Unit {0}))
  teardown_container_networking = do
    s ← get
    kern (teardown_namespaces k s.pod_namespaces)
    kern (stop_cni0 k)

  -- `InitPodNetwork`
  unfoldable pub init_pod_network : Text → Text → M (Bridged W) (Ret (Unit {0}))
  init_pod_network cns podname = do
    let name = get_net_ns cns podname
    requested ← addr (request_pod_ip parse_ip cns podname)
    or_return requested λ ip. (do
      s ← get
      linked ←
          kern (setup_pod_net_ns k rounds name (get_cni_if_ip parse_ip s.addresses) ip s.bridge)
      or_return linked λ (host_if, cont_if, nsid).
          (λ t. done (ok tt, record t { pod_namespaces = insert name nsid t.pod_namespaces })))

  -- `StopPodNetwork`
  unfoldable pub stop_pod_network : Text → Text → M (Bridged W) (Ret (Unit {0}))
  stop_pod_network cns podname = kern (netns_delete_named (get_net_ns cns podname))

  -- `CreateVMTun`
  unfoldable pub create_vm_tun : Text → Text → Text → M (Bridged W) (Ret (Text × Ip × List ℕ))
  create_vm_tun cns podname containername = do
    requested ← addr (request_pod_ip parse_ip cns podname)
    or_return requested λ vm_ip. (do
      runes ← kern (rand_string_runes k 4)
      let if_name = codes "vtap" ++ runes
      added ← kern (link_add if_name tuntap)
      or_return added λ _. (do
        tap ← kern (link_by_name if_name)
        up ← kern (link_set_up (dropped tap))
        or_return up λ _. (do
          s ← get
          mastered ← kern (link_set_master (dropped tap) s.bridge)
          or_return mastered λ _. pure (ok (if_name, vm_ip, [])))))
