-- ===== src/Network/Scan/Laws.antt =====
-- The rounds that the search for a free position needs (RequestPodIP of pkg/network/IP4.go and
-- pkg/network/IP6.go).
use feather_multiruntimenetw.Common.{
  ℕ, zero, suc, ◌+◌, ◌*◌, ◌<◌, ◌≡◌, refl, ap, ◌≢◌, inl, inr, true, some, arith, Eq, Bool-cases,
  length,
}
use feather_multiruntimenetw.Common.Dict.{
  Dict, contains, erase, length-erase-lt, contains-erase_ne, contains-erase_imp,
}
use feather_multiruntimenetw.Network.Scan.{first_free, IsFirst}

module _ {K V : Type 0} ⦃e : Eq K⦄ (key : ℕ → K) (next : ℕ → ℕ) (step : ℕ)
    (inj : (m n : ℕ) → key m ≡ key n → m ≡ n) (pos : 0 < step) where
  -- A key of an earlier position plays no part in the search.
  first_free-erase :
      (rounds : ℕ) (used : Dict K V) (n m : ℕ)
      → n < m
      → ((i : ℕ) → contains (key i) used ≡ true → next i ≡ i + step)
      → first_free key next rounds (erase (key n) used) m ≡ first_free key next rounds used m
  unfolding first_free
  first_free-erase zero used n m lt adds = refl
  first_free-erase (suc rounds) used n m lt adds = elim (Bool-cases (contains (key m) used)) [
    | inl here ↦
        rw (contains-erase_ne (key m) (key n) used (λ p. absurd (ne p)), here)
          (first_free-erase rounds used n (next m) (omega (arith, adds m here)) adds)
    | inr free ↦ rw (contains-erase_ne (key m) (key n) used (λ p. absurd (ne p)), free) refl
  ]
    where
      ne : key m ≡ key n → ⊥
      ne p = omega (arith, inj m n p)

  shift :
      (used : Dict K V) (n m k : ℕ)
      → m ≡ n + step
      → contains (key n) used ≡ true
      → IsFirst key step used m k
      → IsFirst key step used n (suc k)
  shift used n m k p here f = record {
    free = let q : n + suc k * step ≡ m + k * step = omega arith in rw q f.free;
    taken = λ j lt. later j lt;
  }
    where
      later : (j : ℕ) → j < suc k → contains (key (n + j * step)) used ≡ true
      later zero lt = let q : n + zero * step ≡ n = omega arith in rw q here
      later (suc j) lt =
          let q : n + suc j * step ≡ m + j * step = omega arith in rw q (f.taken j (omega arith))

  -- What is first in the table without an earlier key is first in the table.
  unerase :
      (used : Dict K V) (n m k : ℕ)
      → n < m
      → IsFirst key step (erase (key n) used) m k
      → IsFirst key step used m k
  unerase used n m k lt f = record {
    free = rw (← contains-erase_ne (key (m + k * step)) (key n) used (ne k)) f.free;
    taken = λ j h. contains-erase_imp (key (m + j * step)) (key n) used (f.taken j h);
  }
    where
      ne : (j : ℕ) → key (m + j * step) ≢ key n
      ne j p = omega (arith, inj (m + j * step) n p)

  -- The search with one round more than the table has entries finds the first free position.
  pub first_free_lem :
      (rounds : ℕ) (used : Dict K V) (n : ℕ)
      → length used < rounds
      → ((i : ℕ) → contains (key i) used ≡ true → next i ≡ i + step)
      → (k : ℕ) × (first_free key next rounds used n ≡ some (n + k * step))
        × IsFirst key step used n k
  unfolding first_free
  first_free_lem zero used n room adds = absurd (omega arith)
  first_free_lem (suc rounds) used n room adds = elim (Bool-cases (contains (key n) used)) [
    | inr free ↦
        let q : n + 0 * step ≡ n = omega arith in
        (0, rw (free, q) refl, record { free = rw q free; taken = λ j lt. absurd (omega arith) })
    | inl here ↦
        let m : ℕ = next n in
        let q : m ≡ n + step = adds n here in
        let adds' = λ (i : ℕ) (h : contains (key i) (erase (key n) used) ≡ true).
          adds i (contains-erase_imp (key i) (key n) used h) in
        let (k, found, f) =
          first_free_lem rounds (erase (key n) used) m
            (omega (arith, length-erase-lt (key n) used here)) adds' in
        let r : m + k * step ≡ n + suc k * step = omega arith in
        (
          suc k,
          rw (here, ← first_free-erase rounds used n m (omega arith) adds, found) (ap some r),
          shift used n m k q here (unerase used n m k (omega arith) f),
        )
  ]
