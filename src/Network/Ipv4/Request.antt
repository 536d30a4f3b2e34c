-- ===== src/Network/Ipv4/Request.antt =====
-- RequestPodIP of pkg/network/IP4.go: which address a pod is given, and when it is refused.
use feather_multiruntimenetw.Common.{
  ℕ, suc, ◌+◌, ◌*◌, ◌≡◌, refl, ap, ◌∙◌, ◌≢◌, inl, inr, true, false, some, none, arith, ltb,
  if◌then◌else◌, Text, codes, Ret, ok, err, message, Outcome, done, Returns, nat_eq, Bool-cases,
  length, ltb→lt,
}
use feather_multiruntimenetw.Common.Dict.{
  contains, insert, lookup, key_of_All, lookup-insert_self, lookup-insert_ne,
}
use feather_multiruntimenetw.Network.Ip.{Ip, u32, int2ip}
use feather_multiruntimenetw.Network.Scan.{first_free, IsFirst}
use feather_multiruntimenetw.Network.Scan.Laws.{first_free_lem}
use feather_multiruntimenetw.Network.Ipv4.{
  Ipv4AddressManager, max_ipv4_ips_per_pod, pod_name, claim, request_pod_ip,
}
use feather_multiruntimenetw.Network.Ipv4.Invariant.{IsValid, IsBlock, insert-IsValid}

-- The first address after the node's own block that starts a free block: the `k`th of them.
abbrev pub FirstBlock : Ipv4AddressManager → ℕ → Type 0
FirstBlock am k = IsFirst {V = Text} (λ a. a) 8 am.used_pod_addresses (am.base_subnet_ip + 8) k

-- What the answer is, once the first free block is known.
abbrev pub answer : Ipv4AddressManager → Text → ℕ → Outcome (Ret Ip × Ipv4AddressManager)
answer am name a =
    if ltb a am.max_subnet_ip
    then done
        (ok (int2ip a), record am { used_pod_addresses = insert a name am.used_pod_addresses })
    else done (err (message (codes "Out of IP addresses")), am)

no_wrap :
    (am : Ipv4AddressManager)
    → IsValid am
    → (i : ℕ) → contains i am.used_pod_addresses ≡ true
    → u32 (i + am.sub_ips_per_pod) ≡ i + 8
no_wrap am v i c =
    let (k, p, q) = key_of_All (IsBlock am) i am.used_pod_addresses v.blocks c in
    omega (arith, v.step, v.fits)

-- From a valid state a request returns: the loop finds the first free block, its address is
-- given out and recorded under the pod's name if it lies below the bound, and otherwise the
-- request is refused and nothing changes.
pub request_pod_ip-first :
    (namespace pod : Text) (am : Ipv4AddressManager)
    → IsValid am
    → (k : ℕ) × FirstBlock am k
      × (request_pod_ip namespace pod am
          ≡ answer am (pod_name namespace pod) (am.base_subnet_ip + 8 + k * 8))
unfolding request_pod_ip
request_pod_ip-first namespace pod am v =
    let start : u32 (am.base_subnet_ip + max_ipv4_ips_per_pod) ≡ am.base_subnet_ip + 8 =
      omega (arith, v.below, v.fits) in
    let (k, found, f) =
      first_free_lem (λ a. a) (λ ip. u32 (ip + am.sub_ips_per_pod)) 8 (λ m n p. p) (omega arith)
        (suc (length am.used_pod_addresses)) am.used_pod_addresses (am.base_subnet_ip + 8)
        (omega arith) (no_wrap am v) in
    let name : Text = pod_name namespace pod in
    (
      k,
      f,
      ap
            (λ s.
              claim
                (first_free (λ a. a) (λ ip. u32 (ip + am.sub_ips_per_pod))
                  (suc (length am.used_pod_addresses)) am.used_pod_addresses s)
                name am)
            start
          ∙ ap (λ o. claim o name am) found,
    )

-- A request keeps the state valid, whether it is met or refused.
pub request_pod_ip-IsValid :
    (namespace pod : Text) (am : Ipv4AddressManager)
    → IsValid am
    → Returns (λ r am'. IsValid am') (request_pod_ip namespace pod am)
request_pod_ip-IsValid namespace pod am v =
    let (k, f, e) = request_pod_ip-first namespace pod am v in
    let a : ℕ = am.base_subnet_ip + 8 + k * 8 in
    elim (Bool-cases (ltb a am.max_subnet_ip)) [
      | inl room ↦
          rw (e, room)
            (insert-IsValid am a (pod_name namespace pod) v
              (k, refl, ltb→lt a am.max_subnet_ip room))
      | inr full ↦ rw (e, full) v
    ]

-- A block that is given out was free before, and no other address changes hands.
abbrev pub Fresh : Ipv4AddressManager → Text → Ret Ip → Ipv4AddressManager → Type 0
Fresh am name (err e) am' = am' ≡ am
Fresh am name (ok ip) am' =
    (a : ℕ) × (ip ≡ int2ip a)
    × (lookup a am.used_pod_addresses ≡ none)
    × (lookup a am'.used_pod_addresses ≡ some name)
    × ((b : ℕ) → b ≢ a → lookup b am'.used_pod_addresses ≡ lookup b am.used_pod_addresses)

free_lookup :
    (a : ℕ) (am : Ipv4AddressManager)
    → contains a am.used_pod_addresses ≡ false
    → lookup a am.used_pod_addresses ≡ none
free_lookup a am h = ground arith

-- From a valid state a request returns an address that was free, records it under the pod's
-- name and leaves every other address as it was; a refused request changes nothing.
pub request_pod_ip-Fresh :
    (namespace pod : Text) (am : Ipv4AddressManager)
    → IsValid am
    → Returns (Fresh am (pod_name namespace pod)) (request_pod_ip namespace pod am)
request_pod_ip-Fresh namespace pod am v =
    let (k, f, e) = request_pod_ip-first namespace pod am v in
    let a : ℕ = am.base_subnet_ip + 8 + k * 8 in
    let name : Text = pod_name namespace pod in
    let used = am.used_pod_addresses in
    elim (Bool-cases (ltb a am.max_subnet_ip)) [
      | inl room ↦
          rw (e, room)
            (
              a,
              refl,
              free_lookup a am f.free,
              lookup-insert_self a name used,
              λ b ne. lookup-insert_ne b a name used ne,
            )
      | inr full ↦ rw (e, full) refl
    ]
