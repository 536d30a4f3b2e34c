-- ===== src/Provider/Instances/Mounts.antt =====
-- The volume mounts of an instance: newInstance of pkg/provider/instance.go.
use feather_multiruntimenetw.Common.{
  List, [], ◌∷◌, ◌≡◌, refl, none, some, Text, text_eq, M, Ret, ok, err, Ends, ◌>>=◌, pure,
  or_return, All, Bool-cases, inl, inr, ◌==◌, beq_eq, arith, Option-cases,
}
use feather_multiruntimenetw.Common.Ensures.{Ensures, Ensures-or_error, Ensures-seq, Ensures-bind}
use feather_multiruntimenetw.Common.Dict.{Dict, lookup, insert}
use feather_multiruntimenetw.Provider.Spec.{
  VolumeSource, host_path, empty_dir, nfs, other_source, secret, config_map, projected, Volume,
  VolumeMount, Pod, InstanceVolume, InstanceVolumeMount,
}
use feather_multiruntimenetw.Provider.Host.{Host}
use feather_multiruntimenetw.Provider.Volumes.{new_instance_volume, expand, object_of, project_all}
use feather_multiruntimenetw.Provider.Instances.{volumes_by_name, mount_volumes}

-- Every volume stands under its name.
abbrev ByName : Dict Text Volume → Type 0
ByName by_name = All (λ e. e.1.name ≡ e.0) by_name

insert-ByName :
    (v : Volume) (by_name : Dict Text Volume) → ByName by_name → ByName (insert v.name v by_name)
insert-ByName v [] b = (refl, tt)
insert-ByName v ((j, w) ∷ d) b = elim (Bool-cases (v.name == j)) [
  | inl same ↦ rw same (refl, b.1)
  | inr other ↦ rw other (b.0, insert-ByName v d b.1)
]

volumes_by_name-ByName :
    (by_name : Dict Text Volume) (volumes : List Volume)
    → ByName by_name
    → ByName (volumes_by_name by_name volumes)
unfolding volumes_by_name
volumes_by_name-ByName by_name [] b = b
volumes_by_name-ByName by_name (v ∷ volumes) b =
    volumes_by_name-ByName (insert v.name v by_name) volumes (insert-ByName v by_name b)

lookup-ByName :
    (k : Text) (v : Volume) (d : Dict Text Volume) → ByName d → lookup k d ≡ some v → v.name ≡ k
lookup-ByName k v [] b e = absurd (no_volume e)
  where
    no_volume : none ≡ some v → ⊥
    no_volume p = cc
lookup-ByName k v ((j, w) ∷ d) b e = elim (Bool-cases (k == j)) [
  | inl same ↦
      let p : some w ≡ some v = ground (arith, e) in
      let q : w.name ≡ j = b.0 in cc (p, q, beq_eq k j same)
  | inr other ↦ lookup-ByName k v d b.1 (ground (arith, e))
]

-- Each mount got a volume of its name, in the order of the container's mounts.
abbrev pub Mounted : List VolumeMount → List InstanceVolumeMount → Type 0
Mounted [] [] = Unit
Mounted (vm ∷ vms) (m ∷ ms) =
    (m.volume_mount ≡ vm) × (m.volume.volume.name ≡ vm.name) × Mounted vms ms
Mounted _ _ = ⊥

abbrev pub MountedAll : List VolumeMount → Ret (List InstanceVolumeMount) → Type 0
MountedAll vms (ok ms) = Mounted vms ms
MountedAll vms (err e) = Unit

abbrev Expands : Volume → Ret InstanceVolume → Type 0
Expands v (ok iv) = iv.volume ≡ v
Expands v (err e) = Unit

module _ {W : Type 0} (h : Host W) where
  expand-Expands :
      (pod : Pod) (v : Volume) (source : VolumeSource)
      → Ensures (λ r (w : W). Expands v r) (expand h pod v source)
  unfolding expand
  expand-Expands pod v (host_path path) = record { at = λ s. refl }
  expand-Expands pod v empty_dir = record { at = λ s. refl }
  expand-Expands pod v nfs = record { at = λ s. refl }
  expand-Expands pod v other_source = record { at = λ s. tt }
  expand-Expands pod v (secret source) =
      Ensures-bind (h.get_secret source.name pod.namespace) λ got.
        Ensures-or_error (Expands v) (object_of source got) _ (λ e. tt)
          λ o. record { at = λ s. refl }
  expand-Expands pod v (config_map source) =
      Ensures-bind (h.get_config_map source.name pod.namespace) λ got.
        Ensures-or_error (Expands v) (object_of source got) _ (λ e. tt)
          λ o. record { at = λ s. refl }
  expand-Expands pod v (projected sources) =
      Ensures-bind (project_all h pod sources)
        λ ps. Ensures-or_error (Expands v) ps _ (λ e. tt) λ o. record { at = λ s. refl }

  with_mounts :
      (pod : Pod) (vm : VolumeMount) (vms : List VolumeMount) (v : Volume) (iv : InstanceVolume)
      (mounts : Ret (List InstanceVolumeMount))
      → v.name ≡ vm.name
      → iv.volume ≡ v
      → MountedAll vms mounts
      → Ensures
          (λ r (w : W). MountedAll (vm ∷ vms) r)
          (or_return mounts λ ms. pure (ok (record { volume_mount = vm; volume = iv } ∷ ms)))
  with_mounts pod vm vms v iv (err e) n x m = record { at = λ s. tt }
  with_mounts pod vm vms v iv (ok ms) n x m = record { at = λ s. (refl, rw x n, m) }

  with_volume :
      (pod : Pod) (vm : VolumeMount) (vms : List VolumeMount) (v : Volume)
      (volume : Ret InstanceVolume)
      → v.name ≡ vm.name
      → Expands v volume
      → (rest : M W (Ret (List InstanceVolumeMount))) → Ensures (λ r w. MountedAll vms r) rest
      → Ensures
          (λ r w. MountedAll (vm ∷ vms) r)
          (or_return volume λ iv. rest >>= λ mounts.
            or_return mounts λ ms. pure (ok (record { volume_mount = vm; volume = iv } ∷ ms)))
  with_volume pod vm vms v (err e) n x rest r = record { at = λ s. tt }
  with_volume pod vm vms v (ok iv) n x rest r =
      Ensures-seq (MountedAll vms) r λ mounts m. with_mounts pod vm vms v iv mounts n x m

  mount_volumes-MountedAll :
      (pod : Pod) (by_name : Dict Text Volume) (vms : List VolumeMount)
      → ByName by_name
      → Ensures (λ r (w : W). MountedAll vms r) (mount_volumes h pod by_name vms)
  unfolding mount_volumes new_instance_volume
  mount_volumes-MountedAll pod by_name [] b = record { at = λ s. tt }
  mount_volumes-MountedAll pod by_name (vm ∷ vms) b = elim (Option-cases (lookup vm.name by_name)) [
    | inl missing ↦ rw (missing, mount_volumes) (record { at = λ s. tt })
    | inr (v, there) ↦
        rw (there, mount_volumes)
          (Ensures-seq (Expands v) (expand-Expands pod v v.source) λ volume x.
            with_volume pod vm vms v volume (lookup-ByName vm.name v by_name b there) x
              (mount_volumes h pod by_name vms) (mount_volumes-MountedAll pod by_name vms b))
  ]

  -- Where mounting the volumes of a pod returns without an error, there is one mount for each of
  -- the container's, in their order, and its volume has the name that the mount names.
  pub mount_volumes-Mounted :
      (pod : Pod) (vms : List VolumeMount) (w : W)
      → Ends (λ r w'. MountedAll vms r) (mount_volumes h pod (volumes_by_name [] pod.volumes) vms w)
  mount_volumes-Mounted pod vms w =
      (mount_volumes-MountedAll pod (volumes_by_name [] pod.volumes) vms
          (volumes_by_name-ByName [] pod.volumes tt)).at
        w
