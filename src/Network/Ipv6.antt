-- ===== src/Network/Ipv6.antt =====
-- pkg/network/IP6.go, IPv6AddressManager: one suffix of a /112 subnet for each pod. The text of
-- an address is read by a parameter, `net.ParseIP`.
pub mod Laws
use feather_multiruntimenetw.Common.{
  ℕ, zero, suc, ◌+◌, ◌-◌, ◌/◌, ◌^◌, Bool, true, false, List, [], ◌∷◌, ◌++◌, Option, none, some,
  length, ltb, if◌then◌else◌, ◌==◌, nat_eq, text_eq, Text, codes, Error, message, Ret, ok, err,
  Outcome, done, panic, stuck, M, replicate,
}
use feather_multiruntimenetw.Common.Hex.{hex}
use feather_multiruntimenetw.Common.Dict.{Dict, insert, erase}
use feather_multiruntimenetw.Network.Ip.{Ip, IpMask, mask_size}
use feather_multiruntimenetw.Network.Ipv4.{pod_name}
use feather_multiruntimenetw.Network.Scan.{first_free}

-- `MaxIPv6IPsPerPod`
abbrev pub max_ipv6_ips_per_pod : ℕ
max_ipv6_ips_per_pod = 16

pub record Ipv6AddressManager : Type 0 where
  pub base_subnet_ip : Text
  pub subnet_reserved_ips : ℕ
  pub sub_ips_per_pod : ℕ
  pub max_subnet_ip : ℕ
  pub subnet_mask : ℕ
  pub used_pod_addresses : Dict Text Text

unfoldable pub get_mask : Ipv6AddressManager → ℕ
get_mask am = am.subnet_mask

-- The loop of `GetMaskAsAddr`: the first bytes of the sixteen are set to 255. More than sixteen
-- would be out of range.
flip_bytes : ℕ → List ℕ → Outcome (List ℕ)
flip_bytes zero mask = done mask
flip_bytes (suc n) [] = panic
flip_bytes (suc n) (b ∷ mask) = elim (flip_bytes n mask) [
  | done flipped ↦ done (255 ∷ flipped)
  | panic ↦ panic
  | stuck ↦ stuck
]

unfoldable pub get_mask_as_addr : Ipv6AddressManager → Outcome IpMask
unfolding flip_bytes
get_mask_as_addr am = flip_bytes (am.subnet_mask / 8) (replicate 16 0)

unfoldable pub get_max_ips_per_pod : Ipv6AddressManager → ℕ
get_max_ips_per_pod am = am.sub_ips_per_pod

-- `strings.Split(s, ":")` without its last part and joined by ":" again: the text before the
-- last colon, and nothing where there is none.
before_last_colon : Text → Option Text
before_last_colon [] = none
before_last_colon (c ∷ s) = elim (before_last_colon s) [
  | some front ↦ some (c ∷ front)
  | none ↦ if c == b':' then some [] else none
]

-- `InitAddressSpace`, on the text of the node's subnet. Go leaves open what `int` gives of a power
-- of two that does not fit its 64 bits: it is the argument `too_large`, where 0 stands for every
-- number that is not positive.
unfoldable pub init_address_space : ℕ → Text → IpMask → Ipv6AddressManager
unfolding before_last_colon
init_address_space too_large node_subnet sub_mask =
    let (ones, bits) = mask_size sub_mask in
    record {
      base_subnet_ip = elim (before_last_colon node_subnet) [ none ↦ [] | some front ↦ front ];
      subnet_reserved_ips = 16;
      sub_ips_per_pod = max_ipv6_ips_per_pod;
      max_subnet_ip = if ltb (bits - ones) 63 then 2 ^ (bits - ones) else too_large;
      subnet_mask = ones;
      used_pod_addresses = [];
    }

-- `InitStandaloneAddressSpace`, from the prefix that `initBaseIPv6` returned.
unfoldable pub init_standalone_address_space : Text → Ipv6AddressManager
init_standalone_address_space base = record {
  base_subnet_ip = base;
  subnet_reserved_ips = 16;
  sub_ips_per_pod = max_ipv6_ips_per_pod;
  max_subnet_ip = 2 ^ 16;
  subnet_mask = 112;
  used_pod_addresses = [];
}

-- `getContainerIPv6`
unfoldable pub get_container_ipv6 : Text → ℕ → Text
get_container_ipv6 base_subnet_ip container = base_subnet_ip ++ codes ":" ++ hex (container + 16)

-- The loop of `FreePodIP`: the last address of the pod in the order of the visits.
find_pod : Text → Text → Dict Text Text → Text
find_pod name found_ip [] = found_ip
find_pod name found_ip ((ip, c_name) ∷ used) =
    find_pod name (if c_name == name then ip else found_ip) used

-- `FreePodIP`, which never fails.
unfoldable pub free_pod_ip : Text → Text → M Ipv6AddressManager (Ret (Unit {0}))
unfolding find_pod
free_pod_ip namespace pod am =
    let found_ip = find_pod (pod_name namespace pod) [] am.used_pod_addresses in
    if found_ip == []
    then done (ok tt, am)
    else done (ok tt, record am { used_pod_addresses = erase found_ip am.used_pod_addresses })

module _ (parse_ip : Text → Ip) where
  -- The end of `RequestPodIP`, at the number that the loop stopped at.
  claim : Option ℕ → Text → M Ipv6AddressManager (Ret Ip)
  claim none name am = stuck
  claim (some free_ip) name am =
      let full_ip = get_container_ipv6 am.base_subnet_ip free_ip in
      if ltb free_ip am.max_subnet_ip
      then done (
        ok (parse_ip full_ip),
        record am { used_pod_addresses = insert full_ip name am.used_pod_addresses },
      )
      else done (err (message (codes "Out of IP addresses")), am)

  -- `RequestPodIP`. The loop is given one round more than there are addresses in use.
  unfoldable pub request_pod_ip : Text → Text → M Ipv6AddressManager (Ret Ip)
  unfolding claim
  request_pod_ip namespace pod am =
      claim
        (first_free (get_container_ipv6 am.base_subnet_ip) (λ n. n + am.sub_ips_per_pod)
          (suc (length am.used_pod_addresses)) am.used_pod_addresses am.subnet_reserved_ips)
        (pod_name namespace pod) am

  -- `GetTunnelIfIP`
  unfoldable pub get_tunnel_if_ip : Ipv6AddressManager → Ip
  get_tunnel_if_ip am = parse_ip (am.base_subnet_ip ++ codes ":" ++ codes "1")

  -- `GetCNIIfIP`
  unfoldable pub get_cni_if_ip : Ipv6AddressManager → Ip
  get_cni_if_ip am = parse_ip (am.base_subnet_ip ++ codes ":" ++ codes "2")
