-- ===== src/Network/Ipv4.antt =====
-- pkg/network/IP4.go, IPv4AddressManager: one block of addresses for each pod, in the node's
-- subnet. `error` and panics are those of Common/Effects; the base address of a standalone node,
-- a hash of its machine id, is an argument.
pub mod Invariant
pub mod Request
pub mod Free
use feather_multiruntimenetw.Common.{
  ℕ, suc, ◌+◌, ◌-◌, ◌^◌, Bool, true, false, List, [], ◌∷◌, ◌++◌, Option, none, some, length, ltb,
  if◌then◌else◌, ◌==◌, nat_eq, text_eq, Text, codes, Error, message, Ret, ok, err, Outcome, done,
  panic, stuck, M, set,
}
use feather_multiruntimenetw.Common.Dict.{Dict, insert, erase}
use feather_multiruntimenetw.Network.Ip.{Ip, IpMask, u32, ip2int, int2ip, mask_size}
use feather_multiruntimenetw.Network.Scan.{first_free}

-- `MaxIPv4IPsPerPod`
abbrev pub max_ipv4_ips_per_pod : ℕ
max_ipv4_ips_per_pod = 8

pub record Ipv4AddressManager : Type 0 where
  pub base_subnet_ip : ℕ  -- uint32
  pub max_subnet_ip : ℕ  -- uint32
  pub subnet_mask : IpMask
  pub sub_ips_per_pod : ℕ
  pub gateway_ip : ℕ  -- uint32
  pub used_pod_addresses : Dict ℕ Text

-- The body of `InitAddressSpace` on the number of the subnet and the size of the mask.
init_from : ℕ → ℕ × ℕ → IpMask → Ipv4AddressManager
init_from base (ones, bits) mask = record {
  base_subnet_ip = base;
  max_subnet_ip = u32 (base + u32 (2 ^ (bits - ones)));
  subnet_mask = mask;
  sub_ips_per_pod = max_ipv4_ips_per_pod;
  gateway_ip = u32 (base + 1);
  used_pod_addresses = [];
}

-- `InitAddressSpace`; `ip2int` panics on a subnet of fewer than four bytes.
unfoldable pub init_address_space : Ip → IpMask → Outcome Ipv4AddressManager
unfolding init_from
init_address_space node_subnet mask = elim (ip2int node_subnet) [
  | none ↦ panic
  | some base ↦ done (init_from base (mask_size mask) mask)
]

-- `InitStandaloneAddressSpace`, from the address that `initBaseIPv4` returned.
unfoldable pub init_standalone_address_space : Ip → Outcome Ipv4AddressManager
init_standalone_address_space base_ip = elim (ip2int base_ip) [
  | none ↦ panic
  | some base ↦ done (record {
    base_subnet_ip = base;
    max_subnet_ip = u32 (base + 255);
    subnet_mask = 255 ∷ 255 ∷ 255 ∷ 0 ∷ [];
    sub_ips_per_pod = max_ipv4_ips_per_pod;
    gateway_ip = u32 (base + 1);
    used_pod_addresses = [];
  })
]

unfoldable pub get_mask : Ipv4AddressManager → ℕ
get_mask am = (mask_size am.subnet_mask).0

unfoldable pub get_mask_as_addr : Ipv4AddressManager → IpMask
get_mask_as_addr am = am.subnet_mask

unfoldable pub get_max_ips_per_pod : Ipv4AddressManager → ℕ
get_max_ips_per_pod am = am.sub_ips_per_pod

-- `namespace + "_" + pod`
abbrev pub pod_name : Text → Text → Text
pod_name namespace pod = namespace ++ codes "_" ++ pod

-- The end of `RequestPodIP`, at the address that the loop stopped at.
claim : Option ℕ → Text → M Ipv4AddressManager (Ret Ip)
claim none name am = stuck
claim (some free_ip) name am =
    if ltb free_ip am.max_subnet_ip
    then done (
      ok (int2ip free_ip),
      record am { used_pod_addresses = insert free_ip name am.used_pod_addresses },
    )
    else done (err (message (codes "Out of IP addresses")), am)

-- `RequestPodIP`. The loop is given one round more than there are addresses in use.
unfoldable pub request_pod_ip : Text → Text → M Ipv4AddressManager (Ret Ip)
unfolding claim
request_pod_ip namespace pod am =
    claim
      (first_free (λ ip. ip) (λ ip. u32 (ip + am.sub_ips_per_pod))
        (suc (length am.used_pod_addresses)) am.used_pod_addresses
        (u32 (am.base_subnet_ip + max_ipv4_ips_per_pod)))
      (pod_name namespace pod) am

-- The loop of `FreePodIP`: the last address of the pod in the order of the visits.
find_pod : Text → ℕ → Dict ℕ Text → ℕ
find_pod name found_ip [] = found_ip
find_pod name found_ip ((ip, c_name) ∷ used) =
    find_pod name (if c_name == name then ip else found_ip) used

-- `FreePodIP`, which never fails.
unfoldable pub free_pod_ip : Text → Text → M Ipv4AddressManager (Ret (Unit {0}))
unfolding find_pod
free_pod_ip namespace pod am =
    let found_ip = find_pod (pod_name namespace pod) 0 am.used_pod_addresses in
    if ltb 0 found_ip
    then done (ok tt, record am { used_pod_addresses = erase found_ip am.used_pod_addresses })
    else done (ok tt, am)

-- `GetCNIIfIP`
unfoldable pub get_cni_if_ip : Ipv4AddressManager → Ip
get_cni_if_ip am = int2ip am.gateway_ip

-- `GetTunnelIfIP`
unfoldable pub get_tunnel_if_ip : Ipv4AddressManager → Ip
get_tunnel_if_ip am = []

-- `CNIGlobalIPRange`
unfoldable pub cni_global_ip_range : Ipv4AddressManager → Ip
cni_global_ip_range am = set (set (set (int2ip am.base_subnet_ip) 0 0) 1 0) 2 0

-- `GlobalCNINet`: what `net.ParseCIDR` reads in "10.0.0.0/8".
abbrev pub global_cni_net : Ip × IpMask
global_cni_net = (10 ∷ 0 ∷ 0 ∷ 0 ∷ [], 255 ∷ 0 ∷ 0 ∷ 0 ∷ [])
