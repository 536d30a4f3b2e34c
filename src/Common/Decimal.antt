-- ===== src/Common/Decimal.antt =====
-- The verb %d of Go's package fmt on a number that is not negative.
use Prim.Native.Nat.{ℕ, zero, suc, ◌+◌, ◌/◌, ◌%◌}
use mathlib.Core.List.{[], ◌∷◌}
use feather_multiruntimenetw.Common.Tests.{ltb, if◌then◌else◌}
use feather_multiruntimenetw.Common.Texts.{Text}

-- The digits of `n` in front of `rest`; `suc n` rounds are more than the number has digits.
decimal_onto : ℕ → ℕ → Text → Text
decimal_onto zero n rest = rest
decimal_onto (suc rounds) n rest =
    let more = decimal_onto rounds (n / 10) ((b'0' + n % 10) ∷ rest) in
    if ltb n 10 then (b'0' + n) ∷ rest else more

unfoldable pub decimal : ℕ → Text
unfolding decimal_onto
decimal n = decimal_onto (suc n) n []
