-- ===== src/Network/MultiRuntime.antt =====
-- pkg/network/MultiRuntimeNetworking.go: a bridge, a namespace and three eBPF programs for each
-- pod, and a tap device for each virtual machine in it.
pub mod Laws
use feather_multiruntimenetw.Common.{
  ℕ, Bool, List, [], ◌∷◌, ◌++◌, Option, none, some, Text, text_eq, codes, M, Ret, ok, err, message,
  Error, ◌>>=◌, ◌>>◌, pure, crash, or_return, get, modify,
}
use feather_multiruntimenetw.Common.Dict.{Dict, lookup, insert}
use feather_multiruntimenetw.Network.Ip.{Ip}
use feather_multiruntimenetw.Network.Kernel.{Kernel, Link, LinkKind, tuntap, key32, MapKey}
use feather_multiruntimenetw.Network.Addresses.{AddressManager, request_pod_ip}
use feather_multiruntimenetw.Network.Bpf.Routes.{
  make_split_route_map_object, make_split_route_map_object_mac, put_next_split_route_obj,
}
use feather_multiruntimenetw.Network.Bpf.Attach.{load_to_sub_pod_tc, setup_subpod_tc}
use feather_multiruntimenetw.Network.Links.{
  rand_string_runes, generate_mac, setup_pod_bridge, setup_pod_net_ns, teardown_namespaces, dropped,
}
use feather_multiruntimenetw.Network.Devices.{
  PodDevices, no_devices, device_or, Node, kern, addr, device, set_device, next_ip, get_net_ns,
}
use feather_multiruntimenetw.Network.Routing.{init_from_subpod_routing, update_subpod_routing}

-- The address that `RequestPodIP` returned: `net.IP{}` on an error, which is only logged.
abbrev pub ip_or_empty : Ret Ip → Ip
ip_or_empty (ok ip) = ip
ip_or_empty (err e) = []

module _ {W : Type 0} where
  -- `InitContainerNetworking`
  unfoldable pub init_container_networking : M (Node W) (Ret (Unit {0}))
  init_container_networking s = pure (ok tt) (record s { pod_namespaces = []; pod_devices = [] })

  -- `GetNetNsHandle`
  unfoldable pub get_net_ns_handle : Text → Text → Node W → Ret ℕ
  get_net_ns_handle cns podname s = elim (lookup (get_net_ns cns podname) s.pod_namespaces) [
    | none ↦ err (message (codes "Container network namespace not found"))
    | some ns ↦ ok ns
  ]

  -- `GetNetNsPath`
  unfoldable pub get_net_ns_path : Text → Text → Node W → Ret Text
  get_net_ns_path cns podname s = elim (lookup (get_net_ns cns podname) s.pod_namespaces) [
    | none ↦ err (message (codes "Container network namespace not found"))
    | some ns ↦ ok (get_net_ns cns podname)
  ]

  -- `GetGatewayAddress`
  unfoldable pub get_gateway_address : Text → Text → Node W → Ip
  get_gateway_address cns podname s =
      (device_or (lookup (get_net_ns cns podname) s.pod_devices)).base_addr

-- A call whose link is used through its pointer: nil on an error, which is only logged first.
abbrev pub must : {S A : Type 0} → Ret A → M S A
must (ok a) = pure a
must (err e) = crash

module _ {W : Type 0} (k : Kernel W) (rounds : ℕ) where
  open k use {
    link_add, link_by_name, link_set_up, link_set_master, link_del, map_put, ip_string, parse_ip,
    netns_delete_named,
  }

  -- The second half of `InitPodNetwork`: the programs of the bridge and their routes. The base
  -- address is read from the table, since under IPv6 `podIp` is the slice that is written to.
  unfoldable pub route_pod : Text → Link → Link → Ip → ℕ → M (Node W) (Ret (Unit {0}))
  route_pod name pod_link cont_if net_ns_ip nsid = do
    s ← get
    to ← kern (load_to_sub_pod_tc k s.addresses)
    route_obj ←
        kern (make_split_route_map_object s.addresses (some pod_link) (some cont_if) net_ns_ip)
    kern (map_put to.1 (key32 0) route_obj)
    pod_dev ← device name
    set_device name (record pod_dev { to_subpod_bpf_map = to.1; bpf_to_prog = to.0 })
    from_prog ← init_from_subpod_routing k pod_link name
    base ← device name
    update_subpod_routing k pod_link base.base_addr
    attached ← kern (setup_subpod_tc k s.addresses (some pod_link) base.base_addr from_prog to.0)
    pod_dev' ← device name
    set_device name (record pod_dev' { bpf_prog_link = attached.0; maps_to_keep = attached.1 })
    modify (λ t. record t { pod_namespaces = insert name nsid t.pod_namespaces })
    pure (ok tt)

  -- `InitPodNetwork`, once the address of the pod is known, or is `net.IP{}`.
  unfoldable pub bring_up : Text → Ip → M (Node W) (Ret (Unit {0}))
  bring_up name pod_ip = do
    runes ← kern (rand_string_runes k 4)
    bridged ← kern (setup_pod_bridge k rounds runes pod_ip)
    pod_link ← must bridged
    set_device name (record no_devices { base_addr = pod_ip; pod_bridge = some pod_link })
    next ← next_ip name
    or_return next λ net_ns_ip. (do
      dev ← device name
      linked ← kern (setup_pod_net_ns k rounds name dev.base_addr net_ns_ip (some pod_link))
      or_return linked λ (host_if, cont_if, nsid). (do
        pod_dev ← device name
        set_device name (record pod_dev {
          addresses_used = insert (ip_string net_ns_ip) host_if pod_dev.addresses_used;
        })
        route_pod name pod_link cont_if net_ns_ip nsid))

  -- `InitPodNetwork`
  unfoldable pub init_pod_network : Text → Text → M (Node W) (Ret (Unit {0}))
  init_pod_network cns podname = do
    requested ← addr (request_pod_ip parse_ip cns podname)
    bring_up (get_net_ns cns podname) (ip_or_empty requested)

  -- `StopPodNetwork`
  unfoldable pub stop_pod_network : Text → Text → M (Node W) (Ret (Unit {0}))
  stop_pod_network cns podname = do
    let ns = get_net_ns cns podname
    deleted ← kern (netns_delete_named ns)
    or_return deleted λ _. (do
      dev ← device ns
      unlinked ← kern (link_del dev.pod_bridge)
      or_return unlinked λ _. pure (ok tt))

  -- The inner loop of `TeardownContainerNetworking`; the result is that of the last call.
  delete_links : Ret (Unit {0}) → Dict Text Link → M W (Ret (Unit {0}))
  delete_links last [] = pure last
  delete_links last ((_, subif) ∷ rest) = link_del (some subif) >>= λ r. delete_links r rest

  delete_devices : Ret (Unit {0}) → Dict Text PodDevices → M W (Ret (Unit {0}))
  delete_devices last [] = pure last
  delete_devices last ((_, dev) ∷ rest) = do
    r ← link_del dev.pod_bridge
    r' ← delete_links r dev.addresses_used
    delete_devices r' rest

  -- `TeardownContainerNetworking`: every failure is logged, and the result is that of the last
  -- call made.
  unfoldable pub teardown_container_networking : M (Node W) (Ret (Unit {0}))
  unfolding delete_devices delete_links
  teardown_container_networking s =
      kern (do torn ← teardown_namespaces k s.pod_namespaces; delete_devices torn s.pod_devices) s

  -- The end of `CreateVMTun`, once the tap device is there.
  record_vm : Text → Text → Ip → Option Link → M (Node W) (Ret (Text × Ip × List ℕ))
  record_vm name if_name vm_ip none = crash
  record_vm name if_name vm_ip (some tap_if) = do
    s ← get
    pod_devs ← device name
    let devs = record pod_devs {
      addresses_used = insert (ip_string vm_ip) tap_if pod_devs.addresses_used;
    }
    set_device name devs
    mac ← kern (generate_mac k)
    route_obj ← kern (make_split_route_map_object_mac s.addresses devs.pod_bridge mac vm_ip)
    kern (put_next_split_route_obj k devs.to_subpod_bpf_map route_obj)
    pure (ok (if_name, vm_ip, mac))

  -- `CreateVMTun`
  unfoldable pub create_vm_tun : Text → Text → Text → M (Node W) (Ret (Text × Ip × List ℕ))
  unfolding record_vm
  create_vm_tun cns podname containername = do
    let name = get_net_ns cns podname
    next ← next_ip name
    or_return next λ vm_ip. (do
      runes ← kern (rand_string_runes k 4)
      let if_name = codes "vtap" ++ runes
      added ← kern (link_add if_name tuntap)
      or_return added λ _. (do
        tap ← kern (link_by_name if_name)
        up ← kern (link_set_up (dropped tap))
        or_return up λ _. (do
          pod_devs ← device name
          mastered ← kern (link_set_master (dropped tap) pod_devs.pod_bridge)
          or_return mastered λ _. record_vm name if_name vm_ip (dropped tap))))
