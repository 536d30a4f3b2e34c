-- ===== src/Network/PodLocal.antt =====
-- pkg/network/MultiRuntimePodLocalNetworking.go: the multi-runtime manager with traffic to localhost
-- spread over the links of a pod. Routing between pods, StopPodNetwork, TeardownContainerNetworking
-- and the reading methods have the bodies of pkg/network/MultiRuntimeNetworking.go.
pub mod Laws
use feather_multiruntimenetw.Common.{
  ℕ, Bool, List, [], ◌∷◌, ◌++◌, Option, none, some, Text, text_eq, codes, M, Ret, ok, err, message,
  Error, ◌>>=◌, ◌>>◌, pure, crash, or_return, if◌then◌else◌, ◌==◌, get, modify, replicate,
}
use feather_multiruntimenetw.Common.Dict.{Dict, lookup, insert}
use feather_multiruntimenetw.Network.Ip.{Ip}
use feather_multiruntimenetw.Network.Kernel.{
  Kernel, Link, LinkKind, tuntap, key32, MapKey, MapValue, split4, SplitRoute,
}
use feather_multiruntimenetw.Network.Addresses.{AddressManager, request_pod_ip, get_cni_if_ip}
use feather_multiruntimenetw.Network.Bpf.Routes.{
  make_split_lh_route_map_object, make_split_route_map_object_mac, put_next_split_route_obj,
  put_next_lh_split_route_obj,
}
use feather_multiruntimenetw.Network.Bpf.Attach.{setup_from_lh_tc}
use feather_multiruntimenetw.Network.Links.{
  rand_string_runes, generate_mac, setup_pod_bridge, setup_pod_net_ns, setup_cni_dummy, dropped,
  try_get_link,
}
use feather_multiruntimenetw.Network.Devices.{
  PodDevices, no_devices, device_or, Node, kern, addr, device, set_device, next_ip, get_net_ns,
}
use feather_multiruntimenetw.Network.MultiRuntime.{route_pod, ip_or_empty, must}

-- `podDevs.internalDevices[ip]`
abbrev mac_or_nil : Option (List ℕ) → List ℕ
mac_or_nil none = []
mac_or_nil (some mac) = mac

module _ {W : Type 0} (k : Kernel W) where
  open k use {link_by_name, ip_string, parse_ip, map_put}

  -- `attachLocalhostBpfPrograms`, once the program is set up: the map of its routes is kept
  -- under the address of the link.
  unfoldable pub keep_localhost :
      Text → Ip → Option ℕ × Option ℕ × Option ℕ → M (Node W) (Ret (Option ℕ))
  keep_localhost net_ns_name ip (none, from_lh_map, from_keep_map) =
      pure (err (message (codes "couldn't set up localhost from netns")))
  keep_localhost net_ns_name ip (some bpf_link, from_lh_map, from_keep_map) = do
    pod_dev ← device net_ns_name
    set_device net_ns_name (record pod_dev {
      from_localhost_bpf_maps = insert (ip_string ip) from_lh_map pod_dev.from_localhost_bpf_maps;
      maps_to_keep = pod_dev.maps_to_keep ++ from_keep_map ∷ [];
      links_to_keep = pod_dev.links_to_keep ++ some bpf_link ∷ [];
    })
    pure (ok from_lh_map)

  -- `attachLocalhostBpfPrograms`: the program of a link, whose map is kept under its address.
  unfoldable pub attach_localhost_bpf_programs : Text → Ip → Ip → Text → M (Node W) (Ret (Option ℕ))
  attach_localhost_bpf_programs net_ns_name lh_ip ip attach_if_name = do
    s ← get
    attach_if ← kern (link_by_name attach_if_name)
    or_return attach_if λ link. (do
      from_lh ← kern (setup_from_lh_tc k s.addresses (some link) lh_ip)
      keep_localhost net_ns_name ip from_lh)

  -- The loop of `updateLocalhostBpfMaps`: each older map gets a route to the new link, and the
  -- new map a route to each older link.
  unfoldable pub cross_routes :
      AddressManager
      → PodDevices
      → Ip
      → List ℕ
      → Option ℕ
      → Dict Text (Option ℕ)
      → M W (Ret (Unit {0}))
  cross_routes am pod_devs new_ip new_link split_map [] = pure (ok tt)
  cross_routes am pod_devs new_ip new_link split_map ((ip, bpf_map) ∷ maps) =
      let rest = cross_routes am pod_devs new_ip new_link split_map maps in
      if ip == ip_string new_ip then rest else (do
        let src_if = mac_or_nil (lookup ip pod_devs.internal_devices)
        to_new ←
            make_split_lh_route_map_object am pod_devs.pod_bridge new_link pod_devs.base_addr new_ip
        r ← put_next_lh_split_route_obj k bpf_map to_new
        or_return r λ _. (do
          to_old ←
              make_split_lh_route_map_object am pod_devs.pod_bridge src_if pod_devs.base_addr
                (parse_ip ip)
          r' ← put_next_lh_split_route_obj k split_map to_old
          or_return r' λ _. rest))

  -- `updateLocalhostBpfMaps`
  unfoldable pub update_localhost_bpf_maps :
      Text → Ip → List ℕ → Option ℕ → M (Node W) (Ret (Unit {0}))
  unfolding cross_routes
  update_localhost_bpf_maps net_ns_name new_ip new_link split_map = do
    s ← get
    pod_devs ← device net_ns_name
    crossed ← kern (
        cross_routes s.addresses pod_devs new_ip new_link split_map
          pod_devs.from_localhost_bpf_maps)
    or_return crossed λ _. (do
      to_self ← kern (
          make_split_lh_route_map_object s.addresses pod_devs.pod_bridge new_link pod_devs.base_addr
            new_ip)
      kern (put_next_lh_split_route_obj k split_map to_self))

  -- `DeleteForTest`
  unfoldable pub delete_for_test : M (Node W) (Unit {0})
  delete_for_test = do
    poddevs ← device (codes "vmtest-debug")
    kern (
        map_put poddevs.to_subpod_bpf_map (key32 0) (
          split4 (record {
            active = 0;
            target_if_index = 0;
            d_addr = 0;
            s_mac = replicate 6 0;
            d_mac = replicate 6 0;
          })))
    pure tt

  -- `InitContainerNetworking`: a failure of the dummy interface is only logged.
  unfoldable pub init_container_networking : M (Node W) (Ret (Unit {0}))
  init_container_networking = do
    modify (λ s. record s { pod_namespaces = []; pod_devices = [] })
    s ← get
    kern (setup_cni_dummy k (get_cni_if_ip parse_ip s.addresses) (codes "0"))
    pure (ok tt)

module _ {W : Type 0} (k : Kernel W) (rounds : ℕ) where
  open k use {link_add, link_set_up, link_set_master, ip_string, parse_ip}

  -- `InitPodNetwork`, once the address of the pod is known, or is `net.IP{}`.
  unfoldable pub bring_up : Text → Ip → M (Node W) (Ret (Unit {0}))
  bring_up name pod_ip = do
    runes ← kern (rand_string_runes k 4)
    bridged ← kern (setup_pod_bridge k rounds runes pod_ip)
    pod_link ← must bridged
    set_device name (record no_devices { base_addr = pod_ip; pod_bridge = some pod_link })
    next ← next_ip name
    or_return next λ net_ns_ip. (do
      dev ← device name
      linked ← kern (setup_pod_net_ns k rounds name dev.base_addr net_ns_ip (some pod_link))
      or_return linked λ (host_if, cont_if, nsid). (do
        pod_dev ← device name
        set_device name (record pod_dev {
          addresses_used = insert (ip_string net_ns_ip) host_if pod_dev.addresses_used;
          internal_devices =
              insert (ip_string net_ns_ip) cont_if.hardware_addr pod_dev.internal_devices;
        })
        s ← get
        from_map ←
            attach_localhost_bpf_programs k name (get_cni_if_ip parse_ip s.addresses) net_ns_ip
              host_if.name
        or_return from_map λ lh_map. (do
          updated ← update_localhost_bpf_maps k name net_ns_ip cont_if.hardware_addr lh_map
          or_return updated λ _. route_pod k rounds name pod_link cont_if net_ns_ip nsid)))

  -- `InitPodNetwork`
  unfoldable pub init_pod_network : Text → Text → M (Node W) (Ret (Unit {0}))
  init_pod_network cns podname = do
    requested ← addr (request_pod_ip parse_ip cns podname)
    bring_up (get_net_ns cns podname) (ip_or_empty requested)

  -- The end of `CreateVMTun`, once the tap device is on the bridge. Failures to attach and to
  -- update the localhost programs are only logged; the map is nil then.
  record_vm : Text → Text → Ip → Link → M (Node W) (Ret (Text × Ip × List ℕ))
  record_vm name if_name vm_ip tap_if = do
    s ← get
    pod_devs ← device name
    mac ← kern (generate_mac k)
    let devs = record pod_devs {
      addresses_used = insert (ip_string vm_ip) tap_if pod_devs.addresses_used;
      internal_devices = insert (ip_string vm_ip) mac pod_devs.internal_devices;
    }
    set_device name devs
    route_obj ← kern (make_split_route_map_object_mac s.addresses devs.pod_bridge mac vm_ip)
    kern (put_next_split_route_obj k devs.to_subpod_bpf_map route_obj)
    split_map ←
        attach_localhost_bpf_programs k name (get_cni_if_ip parse_ip s.addresses) vm_ip tap_if.name
    let lh_map : Option ℕ = elim split_map [ ok m ↦ m | err e ↦ none ]
    update_localhost_bpf_maps k name vm_ip mac lh_map
    pure (ok (if_name, vm_ip, mac))

  -- `CreateVMTun`
  unfoldable pub create_vm_tun : Text → Text → Text → M (Node W) (Ret (Text × Ip × List ℕ))
  unfolding record_vm
  create_vm_tun cns podname containername = do
    let name = get_net_ns cns podname
    next ← next_ip name
    or_return next λ vm_ip. (do
      runes ← kern (rand_string_runes k 4)
      let if_name = codes "vtap" ++ runes
      added ← kern (link_add if_name tuntap)
      or_return added λ _. (do
        tap_if ← kern (try_get_link k rounds if_name)
        up ← kern (link_set_up (some tap_if))
        or_return up λ _. (do
          pod_devs ← device name
          mastered ← kern (link_set_master (some tap_if) pod_devs.pod_bridge)
          or_return mastered λ _. record_vm name if_name vm_ip tap_if)))
