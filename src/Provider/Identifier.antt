-- ===== src/Provider/Identifier.antt =====
-- pkg/provider/identifier.go: pods, containers and volumes are known by names joined with `_`.
pub mod Laws
use feather_multiruntimenetw.Common.{
  List, [], ◌∷◌, Bool, true, false, Text, ◌==◌, nat_eq, if◌then◌else◌,
}
use feather_multiruntimenetw.Common.Split.{split, join}
use feather_multiruntimenetw.Provider.Spec.{Pod}

-- `joinIdentifierFromParts`
abbrev pub join_identifier_from_parts : List Text → Text
join_identifier_from_parts parts = join b'_' parts

-- `splitIdentifierIntoParts`
abbrev pub split_identifier_into_parts : Text → List Text
split_identifier_into_parts id = split b'_' id

abbrev pub with_namespace : Text → Text → Text
with_namespace [] name = name
with_namespace (c ∷ namespace) name = join_identifier_from_parts ((c ∷ namespace) ∷ name ∷ [])

-- `podToIdentifier`
unfoldable pub pod_to_identifier : Pod → Text
pod_to_identifier pod = with_namespace pod.namespace pod.name

-- `podAndContainerToIdentifier`, and `podAndVolumeToIdentifier`, of the name of the second.
unfoldable pub pod_and_container_to_identifier : Pod → Text → Text
pod_and_container_to_identifier pod name =
    join_identifier_from_parts (pod_to_identifier pod ∷ name ∷ [])

-- `strings.HasPrefix`
abbrev pub has_prefix : Text → Text → Bool
has_prefix s [] = true
has_prefix [] (c ∷ prefix) = false
has_prefix (x ∷ s) (c ∷ prefix) = if x == c then has_prefix s prefix else false

abbrev keep_prefixed : Text → List Text → List Text
keep_prefixed prefix [] = []
keep_prefixed prefix (id ∷ ids) =
    let rest = keep_prefixed prefix ids in if has_prefix id prefix then id ∷ rest else rest

-- `filterIdentifiersByPrefix`
unfoldable pub filter_identifiers_by_prefix : List Text → Text → List Text
filter_identifiers_by_prefix ids prefix =
    keep_prefixed (join_identifier_from_parts (prefix ∷ [] ∷ [])) ids
