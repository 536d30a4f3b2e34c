-- ===== src/Network/Devices/Drift.antt =====
-- The addresses of the pods of one node under IPv6, where the base address of each moves with every
-- call of getNextSubPodIP of pkg/network/ContainerNetworking.go.
use feather_multiruntimenetw.Common.{
  ℕ, zero, suc, ◌*◌, ◌<◌, ◌≡◌, List, [], ◌∷◌, some, nat_eq, text_eq, get_elem?,
}
use feather_multiruntimenetw.Network.Ip.{Ip}
use feather_multiruntimenetw.Network.Ipv6
use feather_multiruntimenetw.Network.Devices.{PodDevices}

-- The rank of each sum, modulo sixteen, of the first numbers.
abbrev ranks : List ℕ
ranks = 0 ∷ 1 ∷ 11 ∷ 2 ∷ 8 ∷ 6 ∷ 3 ∷ 10 ∷ 15 ∷ 14 ∷ 4 ∷ 13 ∷ 7 ∷ 9 ∷ 12 ∷ 5 ∷ []

abbrev Below : (ℕ → Type 0) → ℕ → Type 0
Below P zero = Unit
Below P (suc n) = P n × Below P n

-- A pod with no address in use, whose base address is that of a block of sixteen.
pub record Starts (d : PodDevices) (p : ℕ) : Type 0 where
  pub low : p < 16
  pub ends : get_elem? d.base_addr 15 ≡ some (16 * p)
  pub empty : d.addresses_used ≡ []
