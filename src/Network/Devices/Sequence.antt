-- ===== src/Network/Devices/Sequence.antt =====
-- The addresses that a pod hands out one after the other: calls of getNextSubPodIP of
-- pkg/network/ContainerNetworking.go, after each of which the caller has one address more in the
-- pod's addressesUsed.
use feather_multiruntimenetw.Common.{
  ℕ, zero, suc, ◌+◌, ◌-◌, ◌%◌, ◌<◌, ◌≤◌, ◌≡◌, ◌≢◌, refl, sym, ◌∙◌, List, [], ◌∷◌, nat_eq, text_eq,
  codes, ok, err, message, done, arith, length, set,
}
use feather_multiruntimenetw.Network.Ip.{Ip}
use feather_multiruntimenetw.Network.Addresses.{AddressManager, get_max_ips_per_pod}
use feather_multiruntimenetw.Network.Devices.{PodDevices, get_next_sub_pod_ip}

-- The addresses that were handed out from a state of the pod, the last first, and the state left.
pub data Hands (am : AddressManager) (d : PodDevices) : List Ip → PodDevices → Type 0 where
  none_handed : Hands am d [] d
  handed :
      {ips : List Ip} {e f g : PodDevices} (ip : Ip)
      → Hands am d ips e
      → get_next_sub_pod_ip am e ≡ done (ok ip, f)
      → g.base_addr ≡ f.base_addr
      → length g.addresses_used ≡ suc (length e.addresses_used)
      → Hands am d (ip ∷ ips) g

module _ (am : AddressManager) (d : PodDevices) where
  length_handed :
      (ips : List Ip) (e : PodDevices)
      → Hands am d ips e
      → length e.addresses_used ≡ length d.addresses_used + length ips
  length_handed _ _ none_handed = omega arith
  length_handed (ip ∷ ips) g (handed {e = e} _ before call base more) =
      omega (arith, length_handed ips e before, more)

  refused_full :
      (e : PodDevices)
      → length e.addresses_used ≡ get_max_ips_per_pod am - 1
      → get_next_sub_pod_ip am e
        ≡ done (err (message (codes "No IP addresses left for pod starting with")), e)
  unfolding get_next_sub_pod_ip
  refused_full e full = ground arith

  handed_below :
      (e f : PodDevices) (ip : Ip)
      → get_next_sub_pod_ip am e ≡ done (ok ip, f)
      → length e.addresses_used ≢ get_max_ips_per_pod am - 1
  handed_below e f ip call full = let no = sym (refused_full e full) ∙ call in cc

  module _ (positive : 0 < get_max_ips_per_pod am) (empty : d.addresses_used ≡ []) where
    used :
        (ips : List Ip) (e : PodDevices) → Hands am d ips e → length e.addresses_used ≡ length ips
    used ips e h =
        let start : length d.addresses_used ≡ 0 = rw empty refl in
        omega (arith, length_handed ips e h, start)

    pub at_most :
        (ips : List Ip) (e : PodDevices)
        → Hands am d ips e
        → length ips ≤ get_max_ips_per_pod am - 1
    at_most _ _ none_handed = omega arith
    at_most (ip ∷ ips) g (handed {e = e} {f = f} _ before call base more) =
        omega (arith, at_most ips e before, used ips e before, handed_below e f ip call)

-- The sum of the first numbers.
abbrev pub tri : ℕ → ℕ
tri zero = 0
tri (suc k) = tri k + suc k

-- The base address with its last byte moved.
abbrev pub moved : Ip → ℕ → ℕ → Ip
moved base b k = set base 15 ((b + tri k) % 256)

-- The base address moved by 1, 3, 6 and so on, the last first.
abbrev pub moves : Ip → ℕ → ℕ → List Ip
moves base b zero = []
moves base b (suc k) = moved base b (suc k) ∷ moves base b k
