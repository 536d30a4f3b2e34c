-- ===== src/Network/Ipv6/Laws.antt =====
-- RequestPodIP of pkg/network/IP6.go: which suffix a pod is given.
use feather_multiruntimenetw.Common.{
  ℕ, suc, ◌+◌, ◌*◌, ◌<◌, ◌≡◌, refl, ap, [], ◌∷◌, ◌++◌, arith, ltb, if◌then◌else◌, Text, codes, Ret,
  ok, err, message, Outcome, done, text_eq, length,
}
use feather_multiruntimenetw.Common.Hex.{hex, hex-injective}
use feather_multiruntimenetw.Common.Dict.{insert}
use feather_multiruntimenetw.Network.Ip.{Ip}
use feather_multiruntimenetw.Network.Scan.{IsFirst}
use feather_multiruntimenetw.Network.Scan.Laws.{first_free_lem}
use feather_multiruntimenetw.Network.Ipv4.{pod_name}
use feather_multiruntimenetw.Network.Ipv6.{
  Ipv6AddressManager, get_container_ipv6, claim, request_pod_ip,
}

append_cancel_left : (s t u : Text) → s ++ t ≡ s ++ u → t ≡ u
append_cancel_left [] t u e = e
append_cancel_left (x ∷ s) t u e = append_cancel_left s t u (cc e)

-- Different numbers have different addresses under one prefix.
pub get_container_ipv6-injective :
    (base : Text) (m n : ℕ) → get_container_ipv6 base m ≡ get_container_ipv6 base n → m ≡ n
unfolding get_container_ipv6
get_container_ipv6-injective base m n e =
    let h : hex (m + 16) ≡ hex (n + 16) =
      append_cancel_left (base ++ codes ":") (hex (m + 16)) (hex (n + 16)) e in
    omega (arith, hex-injective (m + 16) (n + 16) h)

module _ (parse_ip : Text → Ip) where
  -- What the answer is, once the first free number is known.
  abbrev pub answer : Ipv6AddressManager → Text → ℕ → Outcome (Ret Ip × Ipv6AddressManager)
  answer am name n =
      let full_ip = get_container_ipv6 am.base_subnet_ip n in
      if ltb n am.max_subnet_ip
      then done (
        ok (parse_ip full_ip),
        record am { used_pod_addresses = insert full_ip name am.used_pod_addresses },
      )
      else done (err (message (codes "Out of IP addresses")), am)

  -- With a positive step between pods a request returns, in any state: the loop finds the first
  -- free number, and its address is given out and recorded under the pod's name if the number
  -- lies below the bound; otherwise the request is refused and nothing changes.
  pub request_pod_ip_suffix :
      (namespace pod : Text) (am : Ipv6AddressManager)
      → 0 < am.sub_ips_per_pod
      → (k : ℕ) × IsFirst {V = Text}
          (get_container_ipv6 am.base_subnet_ip)
          am.sub_ips_per_pod
          am.used_pod_addresses
          am.subnet_reserved_ips
          k
        × (request_pod_ip parse_ip namespace pod am
            ≡ answer am (pod_name namespace pod) (am.subnet_reserved_ips + k * am.sub_ips_per_pod))
  unfolding request_pod_ip
  request_pod_ip_suffix namespace pod am pos =
      let (k, found, f) =
        first_free_lem (get_container_ipv6 am.base_subnet_ip) (λ n. n + am.sub_ips_per_pod)
          am.sub_ips_per_pod (get_container_ipv6-injective am.base_subnet_ip) pos
          (suc (length am.used_pod_addresses)) am.used_pod_addresses am.subnet_reserved_ips
          (omega arith) (λ i h. refl) in
      (k, f, ap (λ o. claim parse_ip o (pod_name namespace pod) am) found)
