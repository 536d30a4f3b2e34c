-- ===== src/Network/Pods/Names.antt =====
-- GetNetNs of pkg/network/NetNsManagement.go, the name under which the managers keep a pod.
use feather_multiruntimenetw.Common.{
  [], ◌∷◌, ◌++◌, ◌≡◌, refl, sym, ap, ◌∙◌, Text, text_eq, arith, nat_eq,
}
use feather_multiruntimenetw.Common.Split.{Lacks}
use feather_multiruntimenetw.Network.Devices.{get_net_ns}

before_dash :
    (a b p q : Text)
    → Lacks b'-' a
    → Lacks b'-' b
    → a ++ b'-' ∷ p ≡ b ++ b'-' ∷ q
    → (a ≡ b) × (p ≡ q)
before_dash [] [] p q ha hb e = (refl, cc e)
before_dash [] (y ∷ b) p q ha hb e = let first : b'-' ≡ y = cc e in ground (arith, hb.0)
before_dash (x ∷ a) [] p q ha hb e = let first : x ≡ b'-' = cc e in ground (arith, ha.0)
before_dash (x ∷ a) (y ∷ b) p q ha hb e =
    let (u, v) = before_dash a b p q ha.1 hb.1 (cc e) in
    let first : x ≡ y = cc e in (cc (u, first), v)

append_dash : (n p : Text) → get_net_ns n p ≡ n ++ b'-' ∷ p
unfolding get_net_ns
append_dash [] p = refl
append_dash (c ∷ n) p = ap (λ r. c ∷ r) (append_dash n p)

-- Among namespaces without a dash, the name determines the namespace and the pod.
pub get_net_ns-injective :
    (ns ns' pod pod' : Text)
    → Lacks b'-' ns
    → Lacks b'-' ns'
    → get_net_ns ns pod ≡ get_net_ns ns' pod'
    → (ns ≡ ns') × (pod ≡ pod')
get_net_ns-injective ns ns' pod pod' h h' e =
    before_dash ns ns' pod pod' h h' (sym (append_dash ns pod) ∙ e ∙ append_dash ns' pod')

-- With a dash in the namespace it does not: the name is the same wherever the dash is taken to
-- part the namespace from the pod.
pub get_net_ns_shared : (a b c : Text) → get_net_ns (a ++ b'-' ∷ b) c ≡ get_net_ns a (b ++ b'-' ∷ c)
unfolding get_net_ns
get_net_ns_shared [] b c = append_dash (b'-' ∷ b) c ∙ sym (append_dash [] (b ++ b'-' ∷ c))
get_net_ns_shared (x ∷ a) b c = ap (λ r. x ∷ r) (get_net_ns_shared a b c)
