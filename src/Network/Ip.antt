-- ===== src/Network/Ip.antt =====
-- pkg/network/IP4.go: an address as a slice of bytes and as a 32-bit number; and of Go's package
-- net the size of a mask.
pub mod Laws
use feather_multiruntimenetw.Common.{
  ℕ, ◌+◌, ◌*◌, ◌/◌, ◌%◌, ◌^◌, Bool, true, false, List, [], ◌∷◌, Option, none, some, length,
  if◌then◌else◌, ◌==◌, nat_eq, drop, suc,
}

-- `net.IP`, a slice of bytes: 4 or 16 of them, or none (`net.IP{}`).
abbrev pub Ip : Type 0
Ip = List ℕ

abbrev pub u32 : ℕ → ℕ
u32 n = n % 2 ^ 32

-- `binary.BigEndian.Uint32`: it reads four bytes, and panics (`none`) on a shorter slice.
unfoldable pub big_endian_u32 : List ℕ → Option ℕ
big_endian_u32 (a ∷ b ∷ c ∷ d ∷ _) = some (a * 2 ^ 24 + b * 2 ^ 16 + c * 2 ^ 8 + d)
big_endian_u32 _ = none

-- `ip2int`
unfoldable pub ip2int : Ip → Option ℕ
unfolding big_endian_u32
ip2int ip = if length ip == 16 then big_endian_u32 (drop 12 ip) else big_endian_u32 ip

-- `int2ip`
unfoldable pub int2ip : ℕ → Ip
int2ip n = (n / 2 ^ 24 % 256) ∷ (n / 2 ^ 16 % 256) ∷ (n / 2 ^ 8 % 256) ∷ (n % 256) ∷ []

-- `net.IPMask`
abbrev pub IpMask : Type 0
IpMask = List ℕ

-- The leading ones of a byte whose other bits are 0; `none` for any other byte.
unfoldable pub leading_ones : ℕ → Option ℕ
leading_ones v =
    if v == 0
    then some 0
    else if v == 128
    then some 1
    else if v == 192
    then some 2
    else if v == 224
    then some 3
    else if v == 240
    then some 4
    else if v == 248
    then some 5
    else if v == 252
    then some 6
    else if v == 254
    then some 7
    else if v == 255
    then some 8
    else none

unfoldable pub all_zero : List ℕ → Bool
all_zero [] = true
all_zero (v ∷ m) = if v == 0 then all_zero m else false

-- The ones of a mask, `none` where they are not in front of all zeros.
unfoldable pub mask_length : IpMask → Option ℕ
unfolding leading_ones all_zero
mask_length [] = some 0
mask_length (v ∷ m) =
    let longer : Option ℕ = elim (mask_length m) [ none ↦ none | some n ↦ some (8 + n) ] in
    if v == 255 then longer else if all_zero m then leading_ones v else none

-- `IPMask.Size`, the ones and all bits; (0, 0) where the mask is not canonical.
unfoldable pub mask_size : IpMask → ℕ × ℕ
unfolding mask_length
mask_size m = elim (mask_length m) [ none ↦ (0, 0) | some n ↦ (n, 8 * length m) ]
