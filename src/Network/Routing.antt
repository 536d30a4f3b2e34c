-- ===== src/Network/Routing.antt =====
-- The routes between the bridges of the pods: initFromSubpodRouting and updateSubpodRouting, which
-- pkg/network/MultiRuntimeNetworking.go and pkg/network/MultiRuntimePodLocalNetworking.go both
-- have, with the same body but for what they log.
use feather_multiruntimenetw.Common.{
  ℕ, [], ◌∷◌, ◌++◌, Option, Text, text_eq, M, ok, err, ◌>>=◌, ◌>>◌, pure, crash, if◌then◌else◌,
  ◌==◌, nat_eq, length, replicate, get,
}
use feather_multiruntimenetw.Common.Dict.{Dict}
use feather_multiruntimenetw.Network.Ip.{Ip, u32}
use feather_multiruntimenetw.Network.Kernel.{
  Kernel, Link, MapKey, key32, key128, MapValue, redirect,
}
use feather_multiruntimenetw.Network.Addresses.{AddressManager, is_ipv4}
use feather_multiruntimenetw.Network.Bpf.Routes.{to_array, call_ip2int, attrs}
use feather_multiruntimenetw.Network.Bpf.Attach.{load_from_sub_pod_tc}
use feather_multiruntimenetw.Network.PublicIface.{get_public_iface}
use feather_multiruntimenetw.Network.Devices.{PodDevices, Node, kern, device, set_device}

-- `net.IP.To16`; nil for a length that is neither 4 nor 16.
unfoldable pub to16 : Ip → Ip
to16 ip =
    if length ip == 4
    then replicate 10 0 ++ (255 ∷ 255 ∷ ip)
    else if length ip == 16
    then ip
    else []

module _ {W : Type 0} where
  -- The key under which the routes to an address stand.
  unfoldable pub route_key : AddressManager → Ip → M W MapKey
  unfolding to16
  route_key am ip =
      if is_ipv4 am
      then (do n ← call_ip2int ip; pure (key32 n))
      else (do bytes ← to_array 16 (to16 ip); pure (key128 bytes))

  -- `RedirectRoute` from one link to another.
  unfoldable pub make_redirect_route : Link → Link → ℕ → M W MapValue
  make_redirect_route src dst target = do
    s_mac ← to_array 6 src.hardware_addr
    d_mac ← to_array 6 dst.hardware_addr
    pure (redirect (record { target_if_index = u32 target; s_mac = s_mac; d_mac = d_mac }))

module _ {W : Type 0} (k : Kernel W) (am : AddressManager) where
  open k use {map_put}

  -- The loop of `initFromSubpodRouting`: the new pod's map gets a route to every other pod. A
  -- failed put is only logged.
  unfoldable pub routes_to_others : Option ℕ → Link → Dict Text PodDevices → M W (Unit {0})
  unfolding route_key make_redirect_route
  routes_to_others bpf_map pod_bridge [] = pure tt
  routes_to_others bpf_map pod_bridge ((idx, dev) ∷ devs) = do
    other ← attrs dev.pod_bridge
    if other.name == pod_bridge.name then pure tt else (do
      rroute ← make_redirect_route pod_bridge other other.index
      key ← route_key am dev.base_addr
      map_put bpf_map key rroute
      pure tt)
    routes_to_others bpf_map pod_bridge devs

  -- The default route of `initFromSubpodRouting`, to the public interface.
  default_route : Option ℕ → Link → M W (Unit {0})
  unfolding make_redirect_route
  default_route bpf_map pod_bridge = do
    public_if ← get_public_iface k am
    elim public_if [
      | err e ↦ crash
      | ok iface ↦ do
        rroute ← make_redirect_route pod_bridge iface iface.index
        map_put bpf_map (if is_ipv4 am then key32 0 else key128 (replicate 16 0)) rroute
        pure tt
    ]

  -- The loop of `updateSubpodRouting`: every other pod's map gets a route to the new pod.
  unfoldable pub routes_from_others : Link → Ip → Dict Text PodDevices → M W (Unit {0})
  unfolding route_key make_redirect_route
  routes_from_others pod_bridge pod_ip [] = pure tt
  routes_from_others pod_bridge pod_ip ((idx, dev) ∷ devs) = do
    other ← attrs dev.pod_bridge
    if other.name == pod_bridge.name then pure tt else (do
      rroute ← make_redirect_route other pod_bridge pod_bridge.index
      key ← route_key am pod_ip
      map_put dev.from_subpod_bpf_map key rroute
      pure tt)
    routes_from_others pod_bridge pod_ip devs

module _ {W : Type 0} (k : Kernel W) where
  -- `initFromSubpodRouting`
  unfoldable pub init_from_subpod_routing : Link → Text → M (Node W) (Option ℕ)
  unfolding routes_to_others default_route
  init_from_subpod_routing pod_bridge net_ns_name = do
    s ← get
    loaded ← kern (load_from_sub_pod_tc k s.addresses)
    kern (routes_to_others k s.addresses loaded.1 pod_bridge s.pod_devices)
    kern (default_route k s.addresses loaded.1 pod_bridge)
    pod_dev ← device net_ns_name
    set_device net_ns_name
        (record pod_dev { from_subpod_bpf_map = loaded.1; bpf_from_prog = loaded.0 })
    pure loaded.0

  -- `updateSubpodRouting`
  unfoldable pub update_subpod_routing : Link → Ip → M (Node W) (Unit {0})
  unfolding routes_from_others
  update_subpod_routing pod_bridge pod_ip = do
    s ← get
    kern (routes_from_others k s.addresses pod_bridge pod_ip s.pod_devices)
