-- ===== src/Tests/Addresses.antt =====
-- Requests for addresses, on the sample subnets.
use feather_multiruntimenetw.Common.{
  ℕ, zero, suc, ◌+◌, ◌*◌, ◌<◌, ◌++◌, ◌^◌, ◌≡◌, ◌≢◌, refl, [], ◌∷◌, some, Text, codes, ok, done,
  Returns, arith, text_eq, nat_eq, replicate,
}
use feather_multiruntimenetw.Network.Ip.{
  Ip, mask_size, mask_length, leading_ones, all_zero, ip2int, int2ip,
}
use feather_multiruntimenetw.Network.Ip.Laws.{int2ip-ip2int}
use feather_multiruntimenetw.Network.Scan.{IsFirst}
use feather_multiruntimenetw.Network.Ipv4.{
  Ipv4AddressManager, pod_name, request_pod_ip, init_address_space, init_standalone_address_space,
}
use feather_multiruntimenetw.Network.Ipv4.Invariant.{
  IsValid, init_standalone_address_space-IsValid, init_address_space-IsValid,
}
use feather_multiruntimenetw.Network.Ipv4.Request.{
  FirstBlock, answer, Fresh, request_pod_ip-first, request_pod_ip-IsValid, request_pod_ip-Fresh,
}
use feather_multiruntimenetw.Network.Ipv4.Free.{Undone, free_pod_ip-request_pod_ip}
use feather_multiruntimenetw.Network.Ipv6
use feather_multiruntimenetw.Network.Ipv6.{get_container_ipv6}
use feather_multiruntimenetw.Network.Ipv6.Laws.{request_pod_ip_suffix}
use feather_multiruntimenetw.Network.Ipv6.Laws as V6
use feather_multiruntimenetw.Network.Addresses.{v4}
use feather_multiruntimenetw.Network.Devices.{PodDevices, no_devices, get_next_sub_pod_ip}
use feather_multiruntimenetw.Network.Devices.Blocks.{get_next_sub_pod_ip-ipv4, sub_pod_ips_distinct}
use feather_multiruntimenetw.Common.Decimal.{decimal}
use feather_multiruntimenetw.Common.Dict.{Dict}
use feather_multiruntimenetw.Network.Kernel.{Link}
use feather_multiruntimenetw.Tests.Samples.{
  subnet, subnet-IsValid, subnet6, sample_kernel, sample_link,
}

request_pod_ip-first_example :
    (k : ℕ) × FirstBlock subnet k
    × (request_pod_ip (codes "a") (codes "d") subnet
        ≡ answer subnet (pod_name (codes "a") (codes "d")) (subnet.base_subnet_ip + 8 + k * 8))
request_pod_ip-first_example = request_pod_ip-first (codes "a") (codes "d") subnet subnet-IsValid

request_pod_ip-IsValid_example :
    Returns (λ r am'. IsValid am') (request_pod_ip (codes "a") (codes "d") subnet)
request_pod_ip-IsValid_example =
    request_pod_ip-IsValid (codes "a") (codes "d") subnet subnet-IsValid

request_pod_ip-Fresh_example :
    Returns
      (Fresh subnet (pod_name (codes "a") (codes "d")))
      (request_pod_ip (codes "a") (codes "d") subnet)
request_pod_ip-Fresh_example = request_pod_ip-Fresh (codes "a") (codes "d") subnet subnet-IsValid

free_pod_ip-request_pod_ip_example :
    Returns (Undone (codes "a") (codes "d") subnet) (request_pod_ip (codes "a") (codes "d") subnet)
free_pod_ip-request_pod_ip_example =
    free_pod_ip-request_pod_ip (codes "a") (codes "d") subnet subnet-IsValid (refl, (refl, tt))

init_standalone_address_space-IsValid_example :
    (am : Ipv4AddressManager) × (init_standalone_address_space (10 ∷ 1 ∷ 2 ∷ 0 ∷ []) ≡ done am)
    × IsValid am
unfolding ip2int
init_standalone_address_space-IsValid_example =
    init_standalone_address_space-IsValid (10 ∷ 1 ∷ 2 ∷ 0 ∷ []) 167838208 refl (omega arith)

int2ip-ip2int_example :
    (n : ℕ) × (ip2int (10 ∷ 1 ∷ 2 ∷ 8 ∷ []) ≡ some n)
    × (n < 2 ^ 32)
    × (int2ip n ≡ 10 ∷ 1 ∷ 2 ∷ 8 ∷ [])
int2ip-ip2int_example =
    int2ip-ip2int 10 1 2 8 (omega arith) (omega arith) (omega arith) (omega arith)

request_pod_ip_suffix_example :
    (k : ℕ) × IsFirst {V = Text}
      (get_container_ipv6 subnet6.base_subnet_ip)
      subnet6.sub_ips_per_pod
      subnet6.used_pod_addresses
      subnet6.subnet_reserved_ips
      k
    × (Ipv6.request_pod_ip sample_kernel.parse_ip (codes "a") (codes "d") subnet6
        ≡ V6.answer sample_kernel.parse_ip subnet6
            (pod_name (codes "a") (codes "d"))
            (subnet6.subnet_reserved_ips + k * subnet6.sub_ips_per_pod))
request_pod_ip_suffix_example =
    request_pod_ip_suffix sample_kernel.parse_ip (codes "a") (codes "d") subnet6 (omega arith)

-- A pod at 10.1.2.8 with one address in use.
abbrev pod4 : PodDevices
pod4 = record no_devices {
  base_addr = int2ip 167838216;
  addresses_used = (codes "10.1.2.9", sample_link) ∷ [];
}

get_next_sub_pod_ip-ipv4_example :
    get_next_sub_pod_ip (v4 subnet) pod4 ≡ done (ok (int2ip (167838216 + 1 + 1)), pod4)
get_next_sub_pod_ip-ipv4_example =
    get_next_sub_pod_ip-ipv4 subnet pod4 167838216 refl refl (omega arith) (omega arith)

-- Two pods with blocks of sixteen, and the addresses that each of them hands out.
abbrev pod_at : ℕ → PodDevices
pod_at n = record no_devices { base_addr = replicate 15 7 ++ n ∷ [] }

abbrev ip_at : ℕ → Ip
ip_at n = replicate 15 7 ++ n ∷ []

abbrev link_names : ℕ → Dict Text Link
link_names zero = []
link_names (suc n) = (codes "a" ++ decimal n, sample_link) ∷ link_names n

abbrev pod_with : ℕ → ℕ → PodDevices
pod_with n used = record (pod_at n) { addresses_used = link_names used }

sub_pod_ips_distinct_example : int2ip (167838216 + 7) ≢ int2ip (167838232 + 0)
sub_pod_ips_distinct_example =
    sub_pod_ips_distinct subnet 167838216 167838232 7 0 subnet-IsValid refl refl
      (λ e. absurd (omega arith)) (omega arith) (omega arith)

init_address_space-IsValid_example :
    (am : Ipv4AddressManager) × (init_address_space (10 ∷ 1 ∷ 2 ∷ 0 ∷ []) (255 ∷ 255 ∷ 255 ∷ 0 ∷ [])
      ≡ done am)
    × IsValid am
unfolding ip2int mask_size mask_length leading_ones all_zero
init_address_space-IsValid_example =
    init_address_space-IsValid (10 ∷ 1 ∷ 2 ∷ 0 ∷ []) (255 ∷ 255 ∷ 255 ∷ 0 ∷ []) 167838208 24 32 refl
      refl (omega arith)
