-- ===== src/Network/Links.antt =====
-- pkg/network/ContainerNetworking.go, the links, namespaces and routes of the node; and
-- setupPodBridge of pkg/network/MultiRuntimeNetworking.go. The retry loops end only by success:
-- they are given a number of rounds, and a call that uses them up is `stuck`.
pub mod Retry
pub use Retry.*
use feather_multiruntimenetw.Common.{
  ℕ, zero, suc, ◌+◌, Bool, true, false, List, [], ◌∷◌, ◌++◌, Option, none, some, Text, codes, M,
  Ret, ok, err, Error, ◌>>=◌, ◌>>◌, pure, crash, or_return, if◌then◌else◌, ◌==◌, nat_eq, length,
  get_elem?, set, replicate,
}
use feather_multiruntimenetw.Common.Dict.{Dict}
use feather_multiruntimenetw.Common.Decimal.{decimal}
use feather_multiruntimenetw.Network.Ip.{Ip}
use feather_multiruntimenetw.Network.Kernel.{
  Kernel, Link, LinkKind, bridge, tuntap, veth, IpNet, NetRoute,
}
use feather_multiruntimenetw.Network.Addresses.{AddressManager, is_ipv4, get_mask, get_cni_if_ip}

-- `letterRunes`
abbrev letter_runes : Text
letter_runes = codes "abcdef0123456789"

-- A result whose error is dropped: the value, or nil.
abbrev pub dropped : {A : Type 0} → Ret A → Option A
dropped (ok a) = some a
dropped (err e) = none

-- `fmt.Sprintf("%s/%d", ip.String(), size)`
abbrev prefix_text : Text → ℕ → Text
prefix_text ip size = ip ++ codes "/" ++ decimal size

module _ {W : Type 0} (k : Kernel W) where
  open k use {
    link_add, link_by_name, link_set_up, link_set_master, link_set_ns_fd, link_del, parse_addr,
    addr_add, parse_ip_net, route_add, netns_get, netns_new_named, netns_delete_named, rand_intn,
    rand_read, shell_output, interface_by_name, ip_string, parse_ip,
  }

  -- `RandStringRunes`: each of the `n` runes by a random index, which is in range.
  unfoldable pub rand_string_runes : ℕ → M W Text
  rand_string_runes zero = pure []
  rand_string_runes (suc n) = do
    i ← rand_intn (length letter_runes)
    elim (get_elem? letter_runes i) [
      | none ↦ crash
      | some c ↦ do rest ← rand_string_runes n; pure (c ∷ rest)
    ]

  -- `generateMac`: random bytes behind a fixed prefix. A failed read leaves zeros.
  unfoldable pub generate_mac : M W (List ℕ)
  generate_mac = do
    r ← rand_read 6
    let buf : List ℕ = elim r [ ok b ↦ b | err e ↦ replicate 6 0 ]
    pure (set (set (set buf 0 0x46) 1 0x0C) 2 0x3B)

  -- `setupCNI0`
  unfoldable pub setup_cni0 : AddressManager → M W (Ret (Option Link))
  setup_cni0 am = do
    added ← link_add (codes "cni0") bridge
    or_return added λ _. (do
      brdevice ← link_by_name (codes "cni0")
      addr ← parse_addr (prefix_text (ip_string (get_cni_if_ip parse_ip am)) (get_mask am))
      addr_add (dropped brdevice) (dropped addr)
      up ← link_set_up (dropped brdevice)
      or_return up λ _. pure (ok (dropped brdevice)))

  -- The message about a failure names the link, and panics on a nil link.
  log_name : Ret (Unit {0}) → Option Link → M W (Unit {0})
  log_name (ok _) link = pure tt
  log_name (err e) none = crash
  log_name (err e) (some l) = pure tt

  -- `setupCNIDummy`: all failures between the first and the last are only logged.
  unfoldable pub setup_cni_dummy : Ip → Text → M W (Ret (Option Link))
  unfolding log_name
  setup_cni_dummy ip id = do
    let name = codes "dum" ++ id
    added ← link_add name tuntap
    or_return added λ _. (do
      let net_size = if length ip == 4 then 32 else 128
      poddevice ← link_by_name name
      addr ← parse_addr (prefix_text (ip_string ip) net_size)
      added_addr ← addr_add (dropped poddevice) (dropped addr)
      log_name added_addr (dropped poddevice)
      up ← link_set_up (dropped poddevice)
      log_name up (dropped poddevice)
      or_return up λ _. pure (ok (dropped poddevice)))

  -- `teardownNamespaces`, in the order of the visits; it stops at the first failure.
  unfoldable pub teardown_namespaces : Dict Text ℕ → M W (Ret (Unit {0}))
  teardown_namespaces [] = pure (ok tt)
  teardown_namespaces ((net_ns, _) ∷ rest) =
      netns_delete_named net_ns >>= λ r. or_return r λ _. teardown_namespaces rest

  -- `stopCNI0`
  unfoldable pub stop_cni0 : M W (Ret (Unit {0}))
  stop_cni0 = do brdevice ← link_by_name (codes "cni0"); link_del (dropped brdevice)

  -- `setupPodBridge`. After a failed `link_add` nothing else is done.
  unfoldable pub setup_pod_bridge : ℕ → Text → Ip → M W (Ret Link)
  setup_pod_bridge rounds id ip = do
    let name = codes "pod" ++ id
    added ← link_add name bridge
    or_return added λ _. (do
      poddevice ← try_get_link k rounds name
      let net_size = if length ip == 4 then 30 else 126
      addr ← parse_addr (prefix_text (ip_string ip) net_size)
      or_return addr λ a. (do
        addr_add (some poddevice) (some a)
        try_set_link_up k rounds poddevice
        pure (ok poddevice)))

  -- `setupPodNetNs`, from the moment at which the program is in the pod's namespace: the link
  -- gets its address and route, the loopback is set up, and the program goes back to the root.
  configure_in_netns : ℕ → ℕ → Ip → Ip → Link → Link → ℕ → M W (Ret (Link × Link × ℕ))
  configure_in_netns rounds root gw_ip ip host_if cont_if nsid = do
    let net_size = if length ip == 4 then 24 else 112
    addr ← parse_addr (prefix_text (ip_string ip) net_size)
    addr_add (some cont_if) (dropped addr)
    link_set_up (some cont_if)
    default_ip ← parse_ip_net (codes "0.0.0.0/0")
    or_return default_ip λ dst. (do
      routed ← route_add (record { dst = some dst; link_index = cont_if.index; gw = gw_ip })
      or_return routed λ _. (do
        ns_loopback ← link_by_name (codes "lo")
        or_return ns_loopback λ lo. (do
          try_set_link_up k rounds lo
          try_set_ns k rounds root
          pure (ok (host_if, cont_if, nsid)))))

  -- `setupPodNetNs`: a named namespace, a veth pair from it to the pod's bridge, and its routes.
  -- A failed `netns.Get` leaves the handle -1, here 2^64 - 1.
  unfoldable pub setup_pod_net_ns : ℕ → Text → Ip → Ip → Option Link → M W (Ret (Link × Link × ℕ))
  unfolding configure_in_netns
  setup_pod_net_ns rounds name gw_ip ip bridge_link = do
    got ← netns_get
    let root : ℕ = elim got [ ok ns ↦ ns | err e ↦ 0xffff_ffff_ffff_ffff ]
    created ← netns_new_named name
    try_set_ns k rounds root
    or_return created λ nsid. (do
      runes ← rand_string_runes 4
      let host_if_name = codes "veth" ++ runes
      let cont_if_name = codes "eth" ++ runes
      added ← link_add cont_if_name (veth host_if_name)
      or_return added λ _. (do
        host_if ← try_get_link k rounds host_if_name
        try_set_link_up k rounds host_if
        mastered ← link_set_master (some host_if) bridge_link
        or_return mastered λ _. (do
          cont_if ← try_get_link k rounds cont_if_name
          link_set_ns_fd (some cont_if) nsid
          try_set_ns k rounds nsid
          configure_in_netns rounds root gw_ip ip host_if cont_if nsid)))
