-- ===== src/Tests/Pods.antt =====
-- Setting up a pod on the sample nodes.
use feather_multiruntimenetw.Common.{
  ℕ, ◌≡◌, ◌++◌, ◌∷◌, refl, codes, Ends, Returns, ok, text_eq, nat_eq,
}
use feather_multiruntimenetw.Network.Devices.{get_net_ns, next_ip, get_next_sub_pod_ip}
use feather_multiruntimenetw.Network.MultiRuntime
use feather_multiruntimenetw.Network.PodLocal
use feather_multiruntimenetw.Network.Pods.Frame.{
  OneRequest, multi_runtime-init_pod_network-OneRequest, pod_local-init_pod_network-OneRequest,
}
use feather_multiruntimenetw.Network.Pods.Registered.{
  multi_runtime-init_pod_network-HandleFound, pod_local-init_pod_network-HandleFound,
}
use feather_multiruntimenetw.Network.Pods.Exhaustion.{
  multi_runtime-init_pod_network-refused, pod_local-init_pod_network-refused,
}
use feather_multiruntimenetw.Network.Pods.Stop.{SameManager, stop_pod_network-SameManager}
use feather_multiruntimenetw.Network.Pods.Names.{get_net_ns-injective, get_net_ns_shared}
use feather_multiruntimenetw.Network.Addresses.{
  request_pod_ip, get_max_ips_per_pod, is_ipv4, get_cni_if_ip,
}
use feather_multiruntimenetw.Network.Ipv4
use feather_multiruntimenetw.Network.Scan.{first_free}
use feather_multiruntimenetw.Common.Decimal.{decimal}
use feather_multiruntimenetw.Common.Split.{split}
use feather_multiruntimenetw.Network.Ip.{int2ip, ip2int}
use feather_multiruntimenetw.Network.Links.{rand_string_runes, setup_pod_bridge, setup_pod_net_ns}
use feather_multiruntimenetw.Network.Links.Retry.{retry, try_get_link, try_set_ns, try_set_link_up}
use feather_multiruntimenetw.Network.PublicIface.{get_route_dev, get_public_iface}
use feather_multiruntimenetw.Network.Routing.{init_from_subpod_routing, update_subpod_routing}
use feather_multiruntimenetw.Network.Bpf.Load.{
  load_objects, load_objects_tail_call_ipv4, load_objects_translate_redirect_subpod_ipv4,
  load_objects_split_generic_redirect_ipv4, load_objects_split_lh_redirect_ipv4,
}
use feather_multiruntimenetw.Network.Bpf.Routes.{
  make_split_route_map_object, make_split_lh_route_map_object, put_from,
  put_next_lh_split_route_obj, put_next_split_route_obj, active, is_free,
}
use feather_multiruntimenetw.Network.Bpf.Attach.{
  load_to_sub_pod_tc, load_from_sub_pod_tc, setup_subpod_tc, setup_from_lh_tc,
}
use feather_multiruntimenetw.Tests.Samples.{sample_kernel, sample_node, full_node}

multi_runtime-init_pod_network-OneRequest_example :
    Returns
      (λ r t. OneRequest sample_kernel.parse_ip (codes "a") (codes "d") sample_node t)
      (MultiRuntime.init_pod_network sample_kernel 4 (codes "a") (codes "d") sample_node)
unfolding MultiRuntime.init_pod_network MultiRuntime.bring_up request_pod_ip Ipv4.request_pod_ip
    first_free rand_string_runes setup_pod_bridge setup_pod_net_ns try_get_link try_set_ns
    try_set_link_up retry int2ip ip2int decimal next_ip get_next_sub_pod_ip get_net_ns
    get_max_ips_per_pod Ipv4.get_max_ips_per_pod is_ipv4 MultiRuntime.route_pod
    MultiRuntime.get_net_ns_handle load_to_sub_pod_tc load_from_sub_pod_tc setup_subpod_tc
    load_objects load_objects_tail_call_ipv4 load_objects_translate_redirect_subpod_ipv4
    load_objects_split_generic_redirect_ipv4 make_split_route_map_object init_from_subpod_routing
    update_subpod_routing get_route_dev get_public_iface split
multi_runtime-init_pod_network-OneRequest_example =
    multi_runtime-init_pod_network-OneRequest sample_kernel 4 (codes "a") (codes "d") sample_node

pod_local-init_pod_network-OneRequest_example :
    Returns
      (λ r t. OneRequest sample_kernel.parse_ip (codes "a") (codes "d") sample_node t)
      (PodLocal.init_pod_network sample_kernel 4 (codes "a") (codes "d") sample_node)
unfolding PodLocal.init_pod_network PodLocal.bring_up request_pod_ip Ipv4.request_pod_ip first_free
    rand_string_runes setup_pod_bridge setup_pod_net_ns try_get_link try_set_ns try_set_link_up
    retry int2ip ip2int decimal next_ip get_next_sub_pod_ip get_net_ns get_max_ips_per_pod
    Ipv4.get_max_ips_per_pod is_ipv4 MultiRuntime.route_pod MultiRuntime.get_net_ns_handle
    load_to_sub_pod_tc load_from_sub_pod_tc setup_subpod_tc load_objects load_objects_tail_call_ipv4
    load_objects_translate_redirect_subpod_ipv4 load_objects_split_generic_redirect_ipv4
    make_split_route_map_object init_from_subpod_routing update_subpod_routing get_route_dev
    get_public_iface split PodLocal.keep_localhost PodLocal.attach_localhost_bpf_programs
    PodLocal.update_localhost_bpf_maps PodLocal.cross_routes setup_from_lh_tc
    load_objects_split_lh_redirect_ipv4 make_split_lh_route_map_object put_from
    put_next_lh_split_route_obj put_next_split_route_obj active is_free get_cni_if_ip
    Ipv4.get_cni_if_ip
pod_local-init_pod_network-OneRequest_example =
    pod_local-init_pod_network-OneRequest sample_kernel 4 (codes "a") (codes "d") sample_node

multi_runtime-init_pod_network-HandleFound_example :
    Returns
      (λ r t. (ns : ℕ) × (MultiRuntime.get_net_ns_handle (codes "a") (codes "d") t ≡ ok ns))
      (MultiRuntime.init_pod_network sample_kernel 4 (codes "a") (codes "d") sample_node)
unfolding MultiRuntime.init_pod_network MultiRuntime.bring_up request_pod_ip Ipv4.request_pod_ip
    first_free rand_string_runes setup_pod_bridge setup_pod_net_ns try_get_link try_set_ns
    try_set_link_up retry int2ip ip2int decimal next_ip get_next_sub_pod_ip get_net_ns
    get_max_ips_per_pod Ipv4.get_max_ips_per_pod is_ipv4 MultiRuntime.route_pod
    MultiRuntime.get_net_ns_handle load_to_sub_pod_tc load_from_sub_pod_tc setup_subpod_tc
    load_objects load_objects_tail_call_ipv4 load_objects_translate_redirect_subpod_ipv4
    load_objects_split_generic_redirect_ipv4 make_split_route_map_object init_from_subpod_routing
    update_subpod_routing get_route_dev get_public_iface split
multi_runtime-init_pod_network-HandleFound_example =
    multi_runtime-init_pod_network-HandleFound sample_kernel 4 (codes "a") (codes "d") sample_node

pod_local-init_pod_network-HandleFound_example :
    Returns
      (λ r t. (ns : ℕ) × (MultiRuntime.get_net_ns_handle (codes "a") (codes "d") t ≡ ok ns))
      (PodLocal.init_pod_network sample_kernel 4 (codes "a") (codes "d") sample_node)
unfolding PodLocal.init_pod_network PodLocal.bring_up request_pod_ip Ipv4.request_pod_ip first_free
    rand_string_runes setup_pod_bridge setup_pod_net_ns try_get_link try_set_ns try_set_link_up
    retry int2ip ip2int decimal next_ip get_next_sub_pod_ip get_net_ns get_max_ips_per_pod
    Ipv4.get_max_ips_per_pod is_ipv4 MultiRuntime.route_pod MultiRuntime.get_net_ns_handle
    load_to_sub_pod_tc load_from_sub_pod_tc setup_subpod_tc load_objects load_objects_tail_call_ipv4
    load_objects_translate_redirect_subpod_ipv4 load_objects_split_generic_redirect_ipv4
    make_split_route_map_object init_from_subpod_routing update_subpod_routing get_route_dev
    get_public_iface split PodLocal.keep_localhost PodLocal.attach_localhost_bpf_programs
    PodLocal.update_localhost_bpf_maps PodLocal.cross_routes setup_from_lh_tc
    load_objects_split_lh_redirect_ipv4 make_split_lh_route_map_object put_from
    put_next_lh_split_route_obj put_next_split_route_obj active is_free get_cni_if_ip
    Ipv4.get_cni_if_ip
pod_local-init_pod_network-HandleFound_example =
    pod_local-init_pod_network-HandleFound sample_kernel 4 (codes "a") (codes "d") sample_node

multi_runtime-init_pod_network-refused_example :
    Ends
      (λ r t. ⊥)
      (MultiRuntime.init_pod_network sample_kernel 4 (codes "a") (codes "d") full_node)
unfolding request_pod_ip Ipv4.request_pod_ip first_free
multi_runtime-init_pod_network-refused_example =
    multi_runtime-init_pod_network-refused sample_kernel 4 (codes "a") (codes "d") full_node
      (λ w. tt) tt

pod_local-init_pod_network-refused_example :
    Ends (λ r t. ⊥) (PodLocal.init_pod_network sample_kernel 4 (codes "a") (codes "d") full_node)
unfolding request_pod_ip Ipv4.request_pod_ip first_free
pod_local-init_pod_network-refused_example =
    pod_local-init_pod_network-refused sample_kernel 4 (codes "a") (codes "d") full_node (λ w. tt)
      tt

get_net_ns-injective_example : (codes "a" ≡ codes "a") × (codes "b-c" ≡ codes "b-c")
get_net_ns-injective_example =
    get_net_ns-injective (codes "a") (codes "a") (codes "b-c") (codes "b-c") (refl, tt) (refl, tt)
      refl

get_net_ns_shared_example :
    get_net_ns (codes "a" ++ b'-' ∷ codes "b") (codes "c")
    ≡ get_net_ns (codes "a") (codes "b" ++ b'-' ∷ codes "c")
get_net_ns_shared_example = get_net_ns_shared (codes "a") (codes "b") (codes "c")

stop_pod_network-SameManager_example :
    Returns
      (λ r t. SameManager sample_node t)
      (MultiRuntime.stop_pod_network sample_kernel 4 (codes "a") (codes "d") sample_node)
unfolding MultiRuntime.stop_pod_network
stop_pod_network-SameManager_example =
    stop_pod_network-SameManager sample_kernel 4 (codes "a") (codes "d") sample_node
