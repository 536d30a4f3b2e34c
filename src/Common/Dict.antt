-- ===== src/Common/Dict.antt =====
-- A Go map as an association list. A range over the map visits the entries in the list's order,
-- so a statement about every list is one about every order of visits.
use Prim.Native.Nat.{◌<◌, ◌≤◌}
use mathlib.Core.Path.{◌≡◌, refl}
use mathlib.Core.Logic.{◌≢◌, inl, inr}
use mathlib.Core.Bool.{Bool, true, false}
use mathlib.Core.Option.{Option, none, some}
use mathlib.Core.List.{List, [], ◌∷◌}
use native.Mathlib.Omega.{arith}
use feather_multiruntimenetw.Common.Tests.{
  Eq, ◌==◌, if◌then◌else◌, beq_refl, beq_ne, beq_eq, ne_of_beq, Bool-cases,
}
use feather_multiruntimenetw.Common.Lists.{length, All}

abbrev pub Dict : Type 0 → Type 0 → Type 0
Dict K V = List (K × V)

module _ {K V : Type 0} ⦃e : Eq K⦄ where
  -- `v, ok := m[k]`
  abbrev pub lookup : K → Dict K V → Option V
  lookup k [] = none
  lookup k ((j, v) ∷ d) = if k == j then some v else lookup k d

  -- `_, ok := m[k]`
  abbrev pub contains : K → Dict K V → Bool
  contains k d = elim (lookup k d) [ none ↦ false | some _ ↦ true ]

  -- `m[k] = v`
  abbrev pub insert : K → V → Dict K V → Dict K V
  insert k v [] = (k, v) ∷ []
  insert k v ((j, w) ∷ d) = if k == j then (k, v) ∷ d else (j, w) ∷ insert k v d

  -- `delete(m, k)`
  abbrev pub erase : K → Dict K V → Dict K V
  erase k [] = []
  erase k ((j, w) ∷ d) = if k == j then erase k d else (j, w) ∷ erase k d

  pub lookup-insert_self : (k : K) (v : V) (d : Dict K V) → lookup k (insert k v d) ≡ some v
  lookup-insert_self k v [] = rw (beq_refl k)
  lookup-insert_self k v ((j, w) ∷ d) = ground (arith, beq_refl k, lookup-insert_self k v d)

  pub lookup-insert_ne :
      (j k : K) (v : V) (d : Dict K V) → j ≢ k → lookup j (insert k v d) ≡ lookup j d
  lookup-insert_ne j k v [] h = rw (beq_ne j k h)
  lookup-insert_ne j k v ((i, w) ∷ d) h =
      ground (arith, beq_ne j k h, e.same_iff k i, lookup-insert_ne j k v d h)

  pub lookup-insert :
      (j k : K) (v : V) (d : Dict K V)
      → lookup j (insert k v d) ≡ (if j == k then some v else lookup j d)
  lookup-insert j k v d = elim (Bool-cases (j == k)) [
    | inl same ↦ rw same (rw (beq_eq j k same) (lookup-insert_self k v d))
    | inr other ↦ rw other (lookup-insert_ne j k v d (ne_of_beq j k other))
  ]

  pub lookup-erase_self : (k : K) (d : Dict K V) → lookup k (erase k d) ≡ none
  lookup-erase_self k [] = refl
  lookup-erase_self k ((j, w) ∷ d) = ground (arith, lookup-erase_self k d)

  pub lookup-erase_ne : (j k : K) (d : Dict K V) → j ≢ k → lookup j (erase k d) ≡ lookup j d
  lookup-erase_ne j k [] h = refl
  lookup-erase_ne j k ((i, w) ∷ d) h =
      ground (arith, e.same_iff k i, e.same_iff j i, lookup-erase_ne j k d h)

  pub length-erase-le : (k : K) (d : Dict K V) → length (erase k d) ≤ length d
  length-erase-le k [] = omega arith
  length-erase-le k ((j, w) ∷ d) = ground (arith, length-erase-le k d)

  pub length-erase-lt : (k : K) (d : Dict K V) → contains k d ≡ true → length (erase k d) < length d
  length-erase-lt k [] h = cc
  length-erase-lt k ((j, w) ∷ d) h = ground (arith, length-erase-le k d, length-erase-lt k d)

  pub contains-erase_ne : (j k : K) (d : Dict K V) → j ≢ k → contains j (erase k d) ≡ contains j d
  contains-erase_ne j k d h = ground (arith, lookup-erase_ne j k d h)

  pub contains-erase_imp :
      (j k : K) (d : Dict K V) → contains j (erase k d) ≡ true → contains j d ≡ true
  contains-erase_imp j k d h = elim (Bool-cases (j == k)) [
    | inl same ↦
        let gone : lookup j (erase k d) ≡ none = rw (beq_eq j k same) (lookup-erase_self k d) in
        ground (arith, gone)
    | inr other ↦ ground (arith, lookup-erase_ne j k d (ne_of_beq j k other))
  ]

  -- A predicate of all keys holds of each key that is found.
  pub key_of_All :
      (P : K → Type 0) (k : K) (d : Dict K V) → All (λ p. P p.0) d → contains k d ≡ true → P k
  key_of_All P k [] h c = absurd (no_key c)
    where
      no_key : false ≡ true → ⊥
      no_key p = cc
  key_of_All P k ((j, w) ∷ d) h c = elim (Bool-cases (k == j)) [
    | inl same ↦ rw (beq_eq k j same) h.0
    | inr other ↦ let rest : contains k d ≡ true = ground arith in key_of_All P k d h.1 rest
  ]

  pub All-insert :
      (P : K → Type 0) (k : K) (v : V) (d : Dict K V)
      → All (λ p. P p.0) d
      → P k
      → All (λ p. P p.0) (insert k v d)
  All-insert P k v [] h p = (p, tt)
  All-insert P k v ((j, w) ∷ d) h p = elim (Bool-cases (k == j)) [
    | inl same ↦ rw same (p, h.1)
    | inr other ↦ rw other (h.0, All-insert P k v d h.1 p)
  ]

  pub All-erase :
      (P : K → Type 0) (k : K) (d : Dict K V) → All (λ p. P p.0) d → All (λ p. P p.0) (erase k d)
  All-erase P k [] h = tt
  All-erase P k ((j, w) ∷ d) h = elim (Bool-cases (k == j)) [
    | inl same ↦ rw same (All-erase P k d h.1)
    | inr other ↦ rw other (h.0, All-erase P k d h.1)
  ]
