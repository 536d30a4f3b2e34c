-- ===== src/Network/Addresses.antt =====
-- pkg/network/ContainerNetworking.go, the interface CNAddressManager, as the choice between its
-- two implementations.
use feather_multiruntimenetw.Common.{
  ℕ, Bool, true, false, Text, M, Ret, Outcome, done, panic, stuck,
}
use feather_multiruntimenetw.Network.Ip.{Ip}
use feather_multiruntimenetw.Network.Ipv4
use feather_multiruntimenetw.Network.Ipv4.{Ipv4AddressManager}
use feather_multiruntimenetw.Network.Ipv6
use feather_multiruntimenetw.Network.Ipv6.{Ipv6AddressManager}

pub data AddressManager : Type 0 where
  v4 : Ipv4AddressManager → AddressManager
  v6 : Ipv6AddressManager → AddressManager

-- `IsIPv4`
unfoldable pub is_ipv4 : AddressManager → Bool
is_ipv4 (v4 am) = true
is_ipv4 (v6 am) = false

-- `GetMaxIPsPerPod`
unfoldable pub get_max_ips_per_pod : AddressManager → ℕ
unfolding Ipv4.get_max_ips_per_pod Ipv6.get_max_ips_per_pod
get_max_ips_per_pod (v4 am) = Ipv4.get_max_ips_per_pod am
get_max_ips_per_pod (v6 am) = Ipv6.get_max_ips_per_pod am

-- `GetMask`
unfoldable pub get_mask : AddressManager → ℕ
unfolding Ipv4.get_mask Ipv6.get_mask
get_mask (v4 am) = Ipv4.get_mask am
get_mask (v6 am) = Ipv6.get_mask am

in_v4 : {A : Type 0} → Outcome (A × Ipv4AddressManager) → Outcome (A × AddressManager)
in_v4 (done (a, am)) = done (a, v4 am)
in_v4 panic = panic
in_v4 stuck = stuck

in_v6 : {A : Type 0} → Outcome (A × Ipv6AddressManager) → Outcome (A × AddressManager)
in_v6 (done (a, am)) = done (a, v6 am)
in_v6 panic = panic
in_v6 stuck = stuck

module _ (parse_ip : Text → Ip) where
  -- `GetCNIIfIP`
  unfoldable pub get_cni_if_ip : AddressManager → Ip
  get_cni_if_ip (v4 am) = Ipv4.get_cni_if_ip am
  get_cni_if_ip (v6 am) = Ipv6.get_cni_if_ip parse_ip am

  -- `RequestPodIP`
  unfoldable pub request_pod_ip : Text → Text → M AddressManager (Ret Ip)
  unfolding in_v4 in_v6
  request_pod_ip namespace pod (v4 am) = in_v4 (Ipv4.request_pod_ip namespace pod am)
  request_pod_ip namespace pod (v6 am) = in_v6 (Ipv6.request_pod_ip parse_ip namespace pod am)
