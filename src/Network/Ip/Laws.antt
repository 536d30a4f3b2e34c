-- ===== src/Network/Ip/Laws.antt =====
-- The two readings of an IPv4 address, ip2int and int2ip of pkg/network/IP4.go, against each other.
use feather_multiruntimenetw.Common.{
  ℕ, ◌+◌, ◌*◌, ◌^◌, ◌<◌, ◌≡◌, refl, sym, ap, ◌∙◌, some, [], ◌∷◌, arith,
}
use feather_multiruntimenetw.Network.Ip.{u32, ip2int, int2ip}

-- Reading back the four bytes of any number gives its low 32 bits.
pub ip2int-int2ip : (n : ℕ) → ip2int (int2ip n) ≡ some (u32 n)
unfolding ip2int int2ip
ip2int-int2ip n = ap some (omega arith)

-- Four bytes are read as a number of 32 bits, and that number is written as the same four bytes.
pub int2ip-ip2int :
    (a b c d : ℕ)
    → a < 256
    → b < 256
    → c < 256
    → d < 256
    → (n : ℕ) × (ip2int (a ∷ b ∷ c ∷ d ∷ []) ≡ some n)
      × (n < 2 ^ 32)
      × (int2ip n ≡ a ∷ b ∷ c ∷ d ∷ [])
unfolding ip2int int2ip
int2ip-ip2int a b c d ha hb hc hd =
    (a * 2 ^ 24 + b * 2 ^ 16 + c * 2 ^ 8 + d, refl, omega arith, ground arith)

-- Two numbers of 32 bits with the same bytes are the same.
pub int2ip-injective : (m n : ℕ) → m < 2 ^ 32 → n < 2 ^ 32 → int2ip m ≡ int2ip n → m ≡ n
int2ip-injective m n hm hn e =
    let p : some (u32 m) ≡ some (u32 n) = sym (ip2int-int2ip m) ∙ ap ip2int e ∙ ip2int-int2ip n in
    ground arith
