-- ===== src/Network/PublicIface.antt =====
-- GetRouteDev and getPublicIface of pkg/network/ContainerNetworking.go, and the two kinds of access
-- from outside: pkg/network/LegacyAccess.go and pkg/network/WarrensAccess.go.
use feather_multiruntimenetw.Common.{
  [], ◌∷◌, ◌++◌, none, some, Text, codes, M, Ret, ok, ◌>>=◌, ◌>>◌, pure, crash, or_return,
  if◌then◌else◌, get_elem?,
}
use feather_multiruntimenetw.Common.Split.{split, trim}
use feather_multiruntimenetw.Network.Ip.{Ip}
use feather_multiruntimenetw.Network.Ipv4.{global_cni_net}
use feather_multiruntimenetw.Network.Kernel.{Kernel, Link, IpNet}
use feather_multiruntimenetw.Network.Addresses.{AddressManager, is_ipv4, v4, v6}

-- `GlobalCNINet` of both address managers: what `net.ParseCIDR` reads in the constants
-- "10.0.0.0/8" and "fd53:7769:726c::/48".
unfoldable pub global_cni_net_of : AddressManager → IpNet
global_cni_net_of (v4 am) = record { ip = global_cni_net.0; mask = global_cni_net.1 }
global_cni_net_of (v6 am) = record {
  ip = 0xfd ∷ 0x53 ∷ 0x77 ∷ 0x69 ∷ 0x72 ∷ 0x6c ∷ 0 ∷ 0 ∷ 0 ∷ 0 ∷ 0 ∷ 0 ∷ 0 ∷ 0 ∷ 0 ∷ 0 ∷ [];
  mask = 255 ∷ 255 ∷ 255 ∷ 255 ∷ 255 ∷ 255 ∷ 0 ∷ 0 ∷ 0 ∷ 0 ∷ 0 ∷ 0 ∷ 0 ∷ 0 ∷ 0 ∷ 0 ∷ [];
}

module _ {W : Type 0} (k : Kernel W) where
  open k use {shell_output, interface_by_name, route_add, route_del}

  -- `GetRouteDev`; the third word of the answer, and a panic where there is none.
  unfoldable pub get_route_dev : Text → M W (Ret Text)
  get_route_dev public_ip = do
    route ←
        shell_output
          (codes "ip route get " ++ public_ip ++ codes " | grep -E -o '[0-9\\.]* dev [a-z0-9]*'")
    or_return route
        λ r. elim (get_elem? (split b' ' r) 2) [ none ↦ crash | some dev ↦ pure (ok dev) ]

  -- `getPublicIface`; on an error the interface is nil.
  unfoldable pub get_public_iface : AddressManager → M W (Ret Link)
  unfolding get_route_dev
  get_public_iface am = do
    let pub_ip = if is_ipv4 am then codes "0.0.0.1" else codes "::0"
    dev ← get_route_dev pub_ip
    or_return dev λ d. interface_by_name (trim 10 d)

  -- `LegacyExternalAccess.InitExternalAccess`
  unfoldable pub legacy_init_external_access : AddressManager → M W (Ret (Unit {0}))
  unfolding get_public_iface global_cni_net_of
  legacy_init_external_access am = do
    iface ← get_public_iface am
    or_return iface
        λ i. route_add (record { dst = some (global_cni_net_of am); link_index = i.index; gw = [] })

  -- `LegacyExternalAccess.TeardownExternalAccess`
  unfoldable pub legacy_teardown_external_access : AddressManager → M W (Ret (Unit {0}))
  unfolding get_public_iface global_cni_net_of
  legacy_teardown_external_access am = do
    iface ← get_public_iface am
    or_return iface
        λ i. route_del (record { dst = some (global_cni_net_of am); link_index = i.index; gw = [] })

  -- `LegacyExternalAccess.AddExternalNode`, which does not look at the result of the last call.
  unfoldable pub legacy_add_external_node : AddressManager → Ip → IpNet → M W (Ret (Unit {0}))
  unfolding get_public_iface
  legacy_add_external_node am node_ip cni_range = do
    iface ← get_public_iface am
    or_return iface λ i.
        (route_add (record { dst = some cni_range; link_index = i.index; gw = node_ip })
          >> pure (ok tt))

  -- The methods of `WarrensTunnelAccess` do nothing.
  unfoldable pub warrens_add_external_node : Ip → IpNet → M W (Ret (Unit {0}))
  warrens_add_external_node node_ip cni_range = pure (ok tt)
