-- ===== src/Provider/Osv/Refused.antt =====
-- A volume that newInstanceVolume of pkg/provider/instance_volume.go makes and that
-- getVolumeMountExtras of pkg/provider/backend_osv.go is given.
use feather_multiruntimenetw.Common.{
  ℕ, ◌≡◌, refl, true, none, some, Text, Ret, ok, err, done, Ends, ◌>>=◌,
}
use feather_multiruntimenetw.Common.Ensures.{Ensures, Ensures-bind, Ensures-or_error}
use feather_multiruntimenetw.Provider.Spec.{
  KeyedSource, Volume, secret, VolumeMount, Pod, Instance, InstanceVolume,
}
use feather_multiruntimenetw.Provider.Host.{Host, not_found}
use feather_multiruntimenetw.Provider.Volumes.{object_of, expand, new_instance_volume, bare_volume}
use feather_multiruntimenetw.Provider.Osv.{Machine}
use feather_multiruntimenetw.Provider.Osv.Mounts.{
  get_volume_mount_extras, ensure_volumes_dir, volume_extras, looked_up_extras,
}

abbrev pub IsError : {A : Type 0} → Ret A → Type 0
IsError (ok a) = ⊥
IsError (err e) = Unit

abbrev pub secret_volume : Text → KeyedSource → Volume
secret_volume name source = record { name = name; source = secret source }

module _ {W V : Type 0} (h : Host W) (m : Machine V) where
  refused :
      (pod : Pod) (name : Text) (source : KeyedSource) (i : Instance) (n : ℕ) (vm : VolumeMount)
      → Ensures
          (λ r (v : V). IsError r)
          (get_volume_mount_extras m i n
            (record { volume_mount = vm; volume = bare_volume h pod (secret_volume name source) }))
  unfolding get_volume_mount_extras volume_extras looked_up_extras
  refused pod name source i n vm =
      Ensures-bind (ensure_volumes_dir m)
        λ made. Ensures-or_error IsError made _ (λ e. tt) λ _. record { at = λ v. tt }

  missing_object :
      (source : KeyedSource)
      → source.optional ≡ some true
      → object_of {A = ℕ} source not_found ≡ ok none
  unfolding object_of
  missing_object source optional = rw optional refl

  -- Of a secret that is optional and is not found a volume is made without an error, and mounting
  -- that volume in a virtual machine returns an error, wherever it returns.
  pub optional_secret_refused :
      (pod : Pod) (name : Text) (source : KeyedSource) (i : Instance) (n : ℕ) (vm : VolumeMount)
      (w w' : W) (v : V)
      → source.optional ≡ some true
      → h.get_secret source.name pod.namespace w ≡ done (not_found, w')
      → (iv : InstanceVolume) × (new_instance_volume h pod (secret_volume name source) w
          ≡ done (ok iv, w'))
        × Ends
            (λ r _. IsError r)
            (get_volume_mount_extras m i n (record { volume_mount = vm; volume = iv }) v)
  unfolding new_instance_volume expand
  optional_secret_refused pod name source i n vm w w' v optional missing =
      (bare_volume h pod (secret_volume name source), made, (refused pod name source i n vm).at v)
    where
      made :
          new_instance_volume h pod (secret_volume name source) w
          ≡ done (ok (bare_volume h pod (secret_volume name source)), w')
      made = rw (missing, ◌>>=◌) (rw (missing_object source optional) refl)
