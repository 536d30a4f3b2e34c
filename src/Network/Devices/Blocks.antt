-- ===== src/Network/Devices/Blocks.antt =====
-- The addresses inside a pod's block: getNextSubPodIP of pkg/network/ContainerNetworking.go.
use feather_multiruntimenetw.Common.{
  ℕ, ◌+◌, ◌^◌, ◌<◌, ◌≤◌, ◌≡◌, ◌≢◌, refl, ap, ◌∙◌, true, some, text_eq, ok, done, arith, length,
  nat_eq,
}
use feather_multiruntimenetw.Common.Dict.{contains}
use feather_multiruntimenetw.Network.Ip.{ip2int, int2ip, u32}
use feather_multiruntimenetw.Network.Ip.Laws.{ip2int-int2ip, int2ip-injective}
use feather_multiruntimenetw.Network.Ipv4.{Ipv4AddressManager}
use feather_multiruntimenetw.Network.Ipv4.Invariant.{IsValid, IsBlock, blocks_disjoint}
use feather_multiruntimenetw.Common.Dict.{key_of_All}
use feather_multiruntimenetw.Network.Addresses.{v4, get_max_ips_per_pod}
use feather_multiruntimenetw.Network.Devices.{PodDevices, get_next_sub_pod_ip}

length-int2ip : (n : ℕ) → length (int2ip n) ≡ 4
unfolding int2ip
length-int2ip n = refl

-- Under IPv4, in a pod whose block starts at `b`, with `n` addresses in use: the next one is
-- `b + n + 1`, up to the seventh, and nothing else changes.
pub get_next_sub_pod_ip-ipv4 :
    (am : Ipv4AddressManager) (d : PodDevices) (b : ℕ)
    → am.sub_ips_per_pod ≡ 8
    → d.base_addr ≡ int2ip b
    → b + 8 ≤ 2 ^ 32
    → length d.addresses_used < 7
    → get_next_sub_pod_ip (v4 am) d ≡ done (ok (int2ip (b + length d.addresses_used + 1)), d)
unfolding get_next_sub_pod_ip get_max_ips_per_pod
get_next_sub_pod_ip-ipv4 am d b step base fits room =
    let four : length d.base_addr ≡ 4 = rw base (length-int2ip b) in
    let start : ip2int d.base_addr ≡ some b = rw base (ip2int-int2ip b ∙ ap some (omega arith)) in
    let next : u32 (b + length d.addresses_used + 1) ≡ b + length d.addresses_used + 1 =
      omega arith in
    ground (arith, four, start, next)

-- The addresses that two pods with different blocks hand out are different.
pub sub_pod_ips_distinct :
    (am : Ipv4AddressManager) (a b i j : ℕ)
    → IsValid am
    → contains a am.used_pod_addresses ≡ true
    → contains b am.used_pod_addresses ≡ true
    → a ≢ b
    → i < 8
    → j < 8
    → int2ip (a + i) ≢ int2ip (b + j)
sub_pod_ips_distinct am a b i j v ca cb ne hi hj e =
    let (m, p, below_a) = key_of_All (IsBlock am) a am.used_pod_addresses v.blocks ca in
    let (n, q, below_b) = key_of_All (IsBlock am) b am.used_pod_addresses v.blocks cb in
    let same : a + i ≡ b + j =
      int2ip-injective (a + i) (b + j) (omega (arith, v.fits)) (omega (arith, v.fits)) e in
    omega (arith, blocks_disjoint am a b v ca cb ne)
