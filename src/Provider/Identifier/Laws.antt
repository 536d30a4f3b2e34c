-- ===== src/Provider/Identifier/Laws.antt =====
-- The identifiers of pkg/provider/identifier.go: how they are built up and taken apart.
use feather_multiruntimenetw.Common.{[], ◌∷◌, ◌++◌, ◌≡◌, ◌≢◌, refl, ap, ◌∙◌, Text, nat_eq}
use feather_multiruntimenetw.Common.Split.{join, Lacks, split-join}
use feather_multiruntimenetw.Provider.Spec.{Pod}
use feather_multiruntimenetw.Provider.Identifier.{
  join_identifier_from_parts, split_identifier_into_parts, pod_to_identifier, with_namespace,
  pod_and_container_to_identifier,
}

named_join :
    (name namespace : Text)
    → namespace ≢ []
    → with_namespace namespace name ≡ join_identifier_from_parts (namespace ∷ name ∷ [])
named_join name [] h = absurd (h refl)
named_join name (c ∷ rest) h = refl

pub pod_to_identifier_named :
    (pod : Pod)
    → pod.namespace ≢ []
    → pod_to_identifier pod ≡ join_identifier_from_parts (pod.namespace ∷ pod.name ∷ [])
unfolding pod_to_identifier
pod_to_identifier_named pod h = named_join pod.name pod.namespace h

append_assoc : (a b c : Text) → (a ++ b) ++ c ≡ a ++ (b ++ c)
append_assoc [] b c = refl
append_assoc (x ∷ a) b c = ap (λ r. x ∷ r) (append_assoc a b c)

-- With a namespace, the identifier under which a container is created is the one under which it
-- is looked up.
pub pod_and_container_to_identifier_named :
    (pod : Pod) (name : Text)
    → pod.namespace ≢ []
    → pod_and_container_to_identifier pod name
      ≡ join_identifier_from_parts (pod.namespace ∷ pod.name ∷ name ∷ [])
unfolding pod_and_container_to_identifier join
pod_and_container_to_identifier_named pod name h =
    ap (λ p. p ++ b'_' ∷ name) (pod_to_identifier_named pod h)
    ∙ append_assoc pod.namespace (b'_' ∷ pod.name) (b'_' ∷ name)

-- Where no name has an underscore, the identifier of a container is taken apart into the
-- namespace, the pod's name and its own.
pub split_identifier_into_parts-pod_and_container_to_identifier :
    (pod : Pod) (name : Text)
    → pod.namespace ≢ []
    → Lacks b'_' pod.namespace
    → Lacks b'_' pod.name
    → Lacks b'_' name
    → split_identifier_into_parts (pod_and_container_to_identifier pod name)
      ≡ pod.namespace ∷ pod.name ∷ name ∷ []
split_identifier_into_parts-pod_and_container_to_identifier pod name named hs hp hc =
    ap split_identifier_into_parts (pod_and_container_to_identifier_named pod name named)
    ∙ split-join b'_' pod.namespace (pod.name ∷ name ∷ []) hs (hp, (hc, tt))
