-- ===== src/Common/Hex.antt =====
-- The verb %x of Go's package fmt on a number that is not negative.
use Prim.Native.Nat.{ℕ, zero, suc, ◌+◌, ◌*◌, ◌-◌, ◌/◌, ◌%◌, ◌<◌}
use mathlib.Core.Path.{◌≡◌, sym, ap, ◌∙◌}
use mathlib.Core.Logic.{inl, inr}
use mathlib.Core.List.{[], ◌∷◌}
use native.Mathlib.Omega.{arith}
use feather_multiruntimenetw.Common.Tests.{ltb, if◌then◌else◌, Bool-cases}
use feather_multiruntimenetw.Common.Texts.{Text}

abbrev hex_digit : ℕ → ℕ
hex_digit d = if ltb d 10 then b'0' + d else b'a' + (d - 10)

-- The value of a digit that `hex_digit` wrote.
abbrev pub digit_value : ℕ → ℕ
digit_value c = if ltb c b'a' then c - b'0' else c - b'a' + 10

-- The digits of `n` in front of `rest`; `suc n` rounds are more than the number has digits.
hex_onto : ℕ → ℕ → Text → Text
hex_onto zero n rest = rest
hex_onto (suc rounds) n rest =
    let more = hex_onto rounds (n / 16) (hex_digit (n % 16) ∷ rest) in
    if ltb n 16 then hex_digit n ∷ rest else more

unfoldable pub hex : ℕ → Text
unfolding hex_onto
hex n = hex_onto (suc n) n []

-- The number that a text of digits stands for, read from the left.
unfoldable pub of_hex : ℕ → Text → ℕ
of_hex acc [] = acc
of_hex acc (c ∷ s) = of_hex (acc * 16 + digit_value c) s

value-digit : (d : ℕ) → d < 16 → digit_value (hex_digit d) ≡ d
value-digit d h = ground arith

of_hex-hex_onto :
    (rounds n : ℕ) (rest : Text) → n < rounds → of_hex 0 (hex_onto rounds n rest) ≡ of_hex n rest
unfolding hex_onto of_hex
of_hex-hex_onto zero n rest h = absurd (omega arith)
of_hex-hex_onto (suc rounds) n rest h = elim (Bool-cases (ltb n 16)) [
  | inl last ↦
      let v : digit_value (hex_digit n) ≡ n = value-digit n (ground arith) in
      rw last (ap (λ (d : ℕ). of_hex d rest) (rw v (omega arith)))
  | inr more ↦
      let v : digit_value (hex_digit (n % 16)) ≡ n % 16 = value-digit (n % 16) (omega arith) in
      rw more (
        of_hex-hex_onto rounds (n / 16) (hex_digit (n % 16) ∷ rest) (ground arith)
        ∙ ap (λ (d : ℕ). of_hex d rest) (rw v (omega arith)))
]

-- Reading back what was written.
pub of_hex-hex : (n : ℕ) → of_hex 0 (hex n) ≡ n
unfolding hex of_hex
of_hex-hex n = of_hex-hex_onto (suc n) n [] (omega arith)

pub hex-injective : (m n : ℕ) → hex m ≡ hex n → m ≡ n
hex-injective m n e = sym (of_hex-hex m) ∙ ap (of_hex 0) e ∙ of_hex-hex n
