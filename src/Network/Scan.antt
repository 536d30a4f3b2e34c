-- ===== src/Network/Scan.antt =====
-- The search for the first free position of a table: the loop of RequestPodIP in
-- pkg/network/IP4.go and pkg/network/IP6.go, which differ in their keys and steps.
pub mod Laws
use feather_multiruntimenetw.Common.{
  ℕ, zero, suc, ◌+◌, ◌*◌, ◌<◌, ◌≤◌, ◌≡◌, refl, sym, ◌≢◌, inl, inr, Bool, true, false, Option, none,
  some, arith, Eq, Bool-cases, if◌then◌else◌, length,
}
use feather_multiruntimenetw.Common.Dict.{
  Dict, contains, erase, length-erase-lt, contains-erase_ne, contains-erase_imp,
}

module _ {K V : Type 0} ⦃e : Eq K⦄ (key : ℕ → K) (next : ℕ → ℕ) where
  -- `for taken { free = next(free) }`; `none` where the rounds are used up.
  unfoldable pub first_free : ℕ → Dict K V → ℕ → Option ℕ
  first_free zero used n = none
  first_free (suc rounds) used n =
      let rest = first_free rounds used (next n) in if contains (key n) used then rest else some n

module _ {K V : Type 0} ⦃e : Eq K⦄ (key : ℕ → K) (step : ℕ) where
  -- The `k`th position after `n` is free, and all before it are taken.
  pub record IsFirst (used : Dict K V) (n k : ℕ) : Type 0 where
    pub free : contains (key (n + k * step)) used ≡ false
    pub taken : (j : ℕ) → j < k → contains (key (n + j * step)) used ≡ true
