-- ===== src/Network/Ipv4/Free.antt =====
-- FreePodIP of pkg/network/IP4.go after RequestPodIP.
use feather_multiruntimenetw.Common.{
  ℕ, ◌+◌, ◌*◌, ◌≡◌, refl, sym, ◌∙◌, inl, inr, true, false, none, [], ◌∷◌, arith, ltb, ◌==◌, Text,
  Ret, ok, done, Returns, nat_eq, text_eq, All, beq_refl, Bool-cases, beq_eq, ne_of_beq,
}
use feather_multiruntimenetw.Common.Dict.{
  Dict, insert, erase, lookup, lookup-insert_ne, lookup-erase_self, lookup-erase_ne,
}
use feather_multiruntimenetw.Network.Ip.{Ip}
use feather_multiruntimenetw.Network.Ipv4.{
  Ipv4AddressManager, pod_name, request_pod_ip, find_pod, free_pod_ip,
}
use feather_multiruntimenetw.Network.Ipv4.Invariant.{IsValid}
use feather_multiruntimenetw.Network.Ipv4.Request.{request_pod_ip-first}

-- No address in use is recorded under the name.
abbrev pub HoldsNone : Text → Dict ℕ Text → Type 0
HoldsNone name used = All (λ e. (e.1 == name) ≡ false) used

find_pod_none :
    (name : Text) (found : ℕ) (used : Dict ℕ Text)
    → HoldsNone name used
    → find_pod name found used ≡ found
unfolding find_pod
find_pod_none name found [] h = refl
find_pod_none name found ((ip, c_name) ∷ used) h = rw h.0 (find_pod_none name found used h.1)

find_pod_self :
    (name : Text) (found a : ℕ) (used : Dict ℕ Text)
    → find_pod name found ((a, name) ∷ used) ≡ find_pod name a used
unfolding find_pod
find_pod_self name found a used = rw (beq_refl name) refl

find_pod-other :
    (name : Text) (found ip : ℕ) (c_name : Text) (used : Dict ℕ Text)
    → (c_name == name) ≡ false
    → find_pod name found ((ip, c_name) ∷ used) ≡ find_pod name found used
unfolding find_pod
find_pod-other name found ip c_name used h = rw h refl

-- The one address of a pod is found.
find_pod-insert :
    (name : Text) (found a : ℕ) (used : Dict ℕ Text)
    → HoldsNone name used
    → find_pod name found (insert a name used) ≡ a
unfolding find_pod
find_pod-insert name found a [] h = rw (beq_refl name) refl
find_pod-insert name found a ((ip, c_name) ∷ used) h = elim (Bool-cases (a == ip)) [
  | inl same ↦ rw same (find_pod_self name found a used ∙ find_pod_none name a used h.1)
  | inr other ↦ rw other (
      find_pod-other name found ip c_name (insert a name used) h.0
      ∙ find_pod-insert name found a used h.1)
]

erase-insert :
    (a b : ℕ) (name : Text) (used : Dict ℕ Text)
    → lookup a used ≡ none
    → lookup b (erase a (insert a name used)) ≡ lookup b used
erase-insert a b name used h = elim (Bool-cases (b == a)) [
  | inl same ↦ rw (beq_eq b a same) (lookup-erase_self a (insert a name used) ∙ sym h)
  | inr other ↦
      lookup-erase_ne b a (insert a name used) (ne_of_beq b a other)
      ∙ lookup-insert_ne b a name used (ne_of_beq b a other)
]

-- What is true of the state after a request, and after the release that follows it.
abbrev pub Undone : Text → Text → Ipv4AddressManager → Ret Ip → Ipv4AddressManager → Type 0
Undone namespace pod am r am' =
    (am'' : Ipv4AddressManager) × (free_pod_ip namespace pod am' ≡ done (ok tt, am''))
    × ((b : ℕ) → lookup b am''.used_pod_addresses ≡ lookup b am.used_pod_addresses)

-- For a pod that holds no address, releasing after a request puts every address back as it
-- was, whether the request was met or refused.
pub free_pod_ip-request_pod_ip :
    (namespace pod : Text) (am : Ipv4AddressManager)
    → IsValid am
    → HoldsNone (pod_name namespace pod) am.used_pod_addresses
    → Returns (Undone namespace pod am) (request_pod_ip namespace pod am)
unfolding free_pod_ip
free_pod_ip-request_pod_ip namespace pod am v none_held =
    let (k, f, e) = request_pod_ip-first namespace pod am v in
    let a : ℕ = am.base_subnet_ip + 8 + k * 8 in
    let name : Text = pod_name namespace pod in
    let used = am.used_pod_addresses in
    elim (Bool-cases (ltb a am.max_subnet_ip)) [
      | inl room ↦
          let free : lookup a used ≡ none = ground (arith, f.free) in
          let pos : ltb 0 a ≡ true = ground arith in
          rw (e, room)
            (
              record am { used_pod_addresses = erase a (insert a name used) },
              rw (find_pod-insert name 0 a used none_held, pos) refl,
              λ b. erase-insert a b name used free,
            )
      | inr full ↦ rw (e, full) (am, rw (find_pod_none name 0 used none_held) refl, λ b. refl)
    ]
