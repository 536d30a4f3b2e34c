-- ===== src/Network/Ipv4/Invariant.antt =====
-- The invariant of IPv4AddressManager (pkg/network/IP4.go): every address in use starts a block
-- of eight, inside the subnet.
use feather_multiruntimenetw.Common.{
  ℕ, zero, suc, ◌-◌, ap, ◌+◌, ◌*◌, ◌^◌, ◌<◌, ◌≤◌, ◌≡◌, refl, ◌≢◌, ◌⊎◌, true, some, [], ◌∷◌, arith,
  All, Text, done, nat_eq,
}
use feather_multiruntimenetw.Common.Dict.{
  contains, insert, erase, key_of_All, All-insert, All-erase,
}
use feather_multiruntimenetw.Network.Ip.{Ip, IpMask, u32, ip2int, mask_size}
use feather_multiruntimenetw.Network.Ipv4.{
  Ipv4AddressManager, max_ipv4_ips_per_pod, init_standalone_address_space, init_address_space,
  init_from,
}

-- The address is the first of a block after that of the node itself, below the bound.
abbrev pub IsBlock : Ipv4AddressManager → ℕ → Type 0
IsBlock am a = (k : ℕ) × (a ≡ am.base_subnet_ip + 8 + k * 8) × (a < am.max_subnet_ip)

pub record IsValid (am : Ipv4AddressManager) : Type 0 where
  pub step : am.sub_ips_per_pod ≡ 8
  pub below : am.base_subnet_ip < am.max_subnet_ip
  pub fits : am.max_subnet_ip + 8 ≤ 2 ^ 32
  pub blocks : All (λ e. IsBlock am e.0) am.used_pod_addresses

-- A standalone node starts valid wherever its /24 subnet ends below the last eight addresses.
pub init_standalone_address_space-IsValid :
    (base_ip : Ip) (base : ℕ)
    → ip2int base_ip ≡ some base
    → base + 263 ≤ 2 ^ 32
    → (am : Ipv4AddressManager) × (init_standalone_address_space base_ip ≡ done am) × IsValid am
unfolding init_standalone_address_space
init_standalone_address_space-IsValid base_ip base e h = (
  record {
    base_subnet_ip = base;
    max_subnet_ip = u32 (base + 255);
    subnet_mask = 255 ∷ 255 ∷ 255 ∷ 0 ∷ [];
    sub_ips_per_pod = max_ipv4_ips_per_pod;
    gateway_ip = u32 (base + 1);
    used_pod_addresses = [];
  },
  rw (e, init_standalone_address_space) refl,
  record { step = refl; below = omega arith; fits = omega arith; blocks = tt },
)

pub insert-IsValid :
    (am : Ipv4AddressManager) (a : ℕ) (name : Text)
    → IsValid am
    → IsBlock am a
    → IsValid (record am { used_pod_addresses = insert a name am.used_pod_addresses })
insert-IsValid am a name v b = record {
  step = v.step;
  below = v.below;
  fits = v.fits;
  blocks = All-insert (IsBlock am) a name am.used_pod_addresses v.blocks b;
}

pub erase-IsValid :
    (am : Ipv4AddressManager) (a : ℕ)
    → IsValid am
    → IsValid (record am { used_pod_addresses = erase a am.used_pod_addresses })
erase-IsValid am a v = record {
  step = v.step;
  below = v.below;
  fits = v.fits;
  blocks = All-erase (IsBlock am) a am.used_pod_addresses v.blocks;
}

apart :
    (base i j : ℕ)
    → i ≢ j
    → (base + 8 + i * 8 + 8 ≤ base + 8 + j * 8) ⊎ (base + 8 + j * 8 + 8 ≤ base + 8 + i * 8)
apart base i j h = omega arith

-- Two different addresses in use are at least eight apart, so that the blocks of eight addresses
-- which begin at them have no address in common.
pub blocks_disjoint :
    (am : Ipv4AddressManager) (a b : ℕ)
    → IsValid am
    → contains a am.used_pod_addresses ≡ true
    → contains b am.used_pod_addresses ≡ true
    → a ≢ b
    → (a + 8 ≤ b) ⊎ (b + 8 ≤ a)
blocks_disjoint am a b v ca cb ne =
    let (i, p, _) = key_of_All (IsBlock am) a am.used_pod_addresses v.blocks ca in
    let (j, q, _) = key_of_All (IsBlock am) b am.used_pod_addresses v.blocks cb in
    omega (arith, apart am.base_subnet_ip i j)

two_pow_pos : (n : ℕ) → 0 < 2 ^ n
two_pow_pos zero = omega arith
two_pow_pos (suc n) = omega (arith, two_pow_pos n)

-- A node starts valid in a subnet that is given, where the size of its mask is read off and the
-- subnet ends below the last eight addresses.
pub init_address_space-IsValid :
    (node_subnet : Ip) (mask : IpMask) (base ones bits : ℕ)
    → ip2int node_subnet ≡ some base
    → mask_size mask ≡ (ones, bits)
    → base + 2 ^ (bits - ones) + 8 ≤ 2 ^ 32
    → (am : Ipv4AddressManager) × (init_address_space node_subnet mask ≡ done am) × IsValid am
unfolding init_address_space init_from
init_address_space-IsValid node_subnet mask base ones bits e size h =
    let pos : 0 < 2 ^ (bits - ones) = two_pow_pos (bits - ones) in
    (
      init_from base (ones, bits) mask,
      rw (e, init_address_space) (ap (λ z. done (init_from base z mask)) size),
      record { step = refl; below = omega arith; fits = omega arith; blocks = tt },
    )
