-- ===== src/Provider/Volumes.antt =====
-- newInstanceVolume of pkg/provider/instance_volume.go.
use feather_multiruntimenetw.Common.{
  ℕ, List, [], ◌∷◌, ◌++◌, Bool, true, false, Option, none, some, codes, M, Ret, ok, err, message,
  ◌>>=◌, pure, or_return, if◌then◌else◌,
}
use feather_multiruntimenetw.Provider.Spec.{
  KeyedSource, VolumeProjection, secret_projection, config_map_projection, downward_api,
  service_account_token, other_projection, VolumeSource, host_path, empty_dir, nfs, other_source,
  secret, config_map, projected, Volume, Pod, Secret, stored, token, InstanceVolumeProjection,
  InstanceVolume,
}
use feather_multiruntimenetw.Provider.Identifier.{join_identifier_from_parts}
use feather_multiruntimenetw.Provider.Host.{Host, Got, found, not_found, unavailable}

-- `Optional != nil && !*Optional`
abbrev pub is_required : KeyedSource → Bool
is_required source = elim source.optional [ none ↦ false | some true ↦ false | some false ↦ true ]

-- The object of a source: an error if it is required and not found, and nil if it was not got
-- for any other reason.
unfoldable pub object_of : {A : Type 0} → KeyedSource → Got A → Ret (Option (KeyedSource × A))
object_of source (found object) = ok (some (source, object))
object_of source not_found =
    if is_required source
    then err (message (source.name ++ codes " is required and does not exist"))
    else ok none
object_of source unavailable = ok none

abbrev pub as_stored : Option (KeyedSource × ℕ) → Option (KeyedSource × Secret)
as_stored none = none
as_stored (some (source, object)) = some (source, stored object)

abbrev bare_projection : VolumeProjection → InstanceVolumeProjection
bare_projection p = record {
  projection = p;
  secret_object = none;
  config_map_object = none;
  service_account_object = none;
}

module _ {W : Type 0} (h : Host W) where
  open h use {get_secret, get_config_map, get_service_account}

  -- The body of the loop over the sources of a projected volume.
  unfoldable pub project : Pod → VolumeProjection → M W (Ret InstanceVolumeProjection)
  project pod (secret_projection source) = do
    got ← get_secret source.name pod.namespace
    or_return (object_of source got) λ object. pure (
        ok (record (bare_projection (secret_projection source)) {
          secret_object = as_stored object;
        }))
  project pod downward_api = pure (ok (bare_projection downward_api))
  project pod (config_map_projection source) = do
    got ← get_config_map source.name pod.namespace
    or_return (object_of source got) λ object. pure (
        ok (record (bare_projection (config_map_projection source)) { config_map_object = object }))
  project pod service_account_token = do
    got ← get_service_account pod.service_account_name pod.namespace
    elim got [
      | found name ↦ pure (
          ok (record (bare_projection service_account_token) {
            service_account_object = some (token pod.namespace name);
          }))
      | _ ↦ pure (err (message (codes "unable to find serviceAccountToken")))
    ]
  project pod other_projection = pure (ok (bare_projection other_projection))

  unfoldable pub project_all :
      Pod → List VolumeProjection → M W (Ret (List InstanceVolumeProjection))
  project_all pod [] = pure (ok [])
  project_all pod (p ∷ ps) = project pod p >>= λ r.
      or_return r
        λ one. (do rest ← project_all pod ps; or_return rest λ others. pure (ok (one ∷ others)))

  abbrev pub bare_volume : Pod → Volume → InstanceVolume
  bare_volume pod volume = record {
    id = join_identifier_from_parts (pod.namespace ∷ pod.name ∷ volume.name ∷ []);
    volume = volume;
    secret_object = none;
    config_map_object = none;
    projections = none;
  }

  -- `newInstanceVolume`, on the source of the volume.
  unfoldable pub expand : Pod → Volume → VolumeSource → M W (Ret InstanceVolume)
  expand pod volume (host_path path) = pure (ok (bare_volume pod volume))
  expand pod volume empty_dir = pure (ok (bare_volume pod volume))
  expand pod volume nfs = pure (ok (bare_volume pod volume))
  expand pod volume (secret source) = do
    got ← get_secret source.name pod.namespace
    or_return (object_of source got)
        λ object. pure (ok (record (bare_volume pod volume) { secret_object = as_stored object }))
  expand pod volume (config_map source) = do
    got ← get_config_map source.name pod.namespace
    or_return (object_of source got)
        λ object. pure (ok (record (bare_volume pod volume) { config_map_object = object }))
  expand pod volume (projected sources) = do
    r ← project_all pod sources
    or_return r λ ps. pure (ok (record (bare_volume pod volume) { projections = some ps }))
  expand pod volume other_source = pure (err (message (codes "volume has an unsupported type")))

  -- `newInstanceVolume`
  unfoldable pub new_instance_volume : Pod → Volume → M W (Ret InstanceVolume)
  new_instance_volume pod volume = expand pod volume volume.source
