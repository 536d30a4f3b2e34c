-- ===== src/Provider/Containerd/ReadOnly.antt =====
-- Which mounts of getVolumeMountsOpts, in pkg/provider/backend_containerd.go, are read only.
use feather_multiruntimenetw.Common.{
  ℕ, List, [], ◌∷◌, ◌++◌, ◌≡◌, refl, Bool, true, false, ◌||◌, Option, none, some, Text, text_eq,
  codes, M, Ret, ok, err, ◌==◌, ◌>>=◌, or_return, pure, Ends, All,
}
use feather_multiruntimenetw.Common.Ensures.{Ensures, Ensures-bind, Ensures-seq, Ensures-or_error}
use feather_multiruntimenetw.Common.Dict.{Dict}
use feather_multiruntimenetw.Provider.Spec.{
  HostPath, VolumeSource, host_path, empty_dir, nfs, other_source, secret, config_map, projected,
  InstanceVolumeMount, InstanceVolumeProjection, KeyedSource, Secret,
}
use feather_multiruntimenetw.Provider.Containerd.{Client, Mount}
use feather_multiruntimenetw.Provider.Containerd.Volumes.{
  bind_options, file_options, host_path_type, host_path_mounts, file_mounts, config_map_mounts,
  write_projections, projected_mounts, object_mounts, source_mounts, mounts_of, all_mounts,
  volume_dir,
}

abbrev pub has_ro : List Text → Bool
has_ro [] = false
has_ro (o ∷ os) = (o == codes "ro") || has_ro os

-- The mounts are read only where the volume mount is, and writable where it is not.
abbrev pub AsAsked : InstanceVolumeMount → List Mount → Type 0
AsAsked vm mounts = All (λ mount. has_ro mount.options ≡ vm.volume_mount.read_only) mounts

abbrev AsAskedRet : InstanceVolumeMount → Ret (List Mount) → Type 0
AsAskedRet vm (ok mounts) = AsAsked vm mounts
AsAskedRet vm (err e) = Unit

-- The mounts fall into one group for each volume mount, in their order, each as it asks.
abbrev pub Grouped : List InstanceVolumeMount → List Mount → Type 0
Grouped [] mounts = mounts ≡ []
Grouped (vm ∷ vms) mounts =
    (group : List Mount) × (others : List Mount) × (mounts ≡ group ++ others)
    × AsAsked vm group
    × Grouped vms others

abbrev pub GroupedRet : List InstanceVolumeMount → Ret (List Mount) → Type 0
GroupedRet vms (ok mounts) = Grouped vms mounts
GroupedRet vms (err e) = Unit

bind_options-ro : (b : Bool) → has_ro (bind_options (codes "bind") b) ≡ b
bind_options-ro true = refl
bind_options-ro false = refl

rbind_options-ro : (b : Bool) → has_ro (bind_options (codes "rbind") b) ≡ b
rbind_options-ro true = refl
rbind_options-ro false = refl

file_options-ro : (b : Bool) → has_ro (file_options b) ≡ b
file_options-ro true = refl
file_options-ro false = refl

module _ {W : Type 0} (c : Client W) where
  abbrev Asked : InstanceVolumeMount → M W (Ret (List Mount)) → Type 0
  Asked vm call = Ensures (λ r (w : W). AsAskedRet vm r) call

  host_path-Asked : (vm : InstanceVolumeMount) (h : HostPath) → Asked vm (host_path_mounts c vm h)
  unfolding host_path_mounts
  host_path-Asked vm h = Ensures-bind (host_path_type c h) λ typed.
      Ensures-or_error (AsAskedRet vm) typed _ (λ e. tt)
        λ _. record { at = λ w. (bind_options-ro vm.volume_mount.read_only, tt) }

  with_file-Asked :
      (vm : InstanceVolumeMount) (mount : Mount) (rest : Ret (List Mount))
      → has_ro mount.options ≡ vm.volume_mount.read_only
      → AsAskedRet vm rest
      → Asked vm (or_return rest λ mounts. pure (ok (mount ∷ mounts)))
  with_file-Asked vm mount (ok mounts) h r = record { at = λ w. (h, r) }
  with_file-Asked vm mount (err e) h r = record { at = λ w. tt }

  files-Asked :
      (vm : InstanceVolumeMount) (dir : Text) (files : Dict Text Text)
      → Asked vm (file_mounts c vm dir files)
  unfolding file_mounts
  files-Asked vm dir [] = record { at = λ w. tt }
  files-Asked vm dir ((path, content) ∷ files) = Ensures-bind (c.write_file _ content) λ written.
      Ensures-or_error (AsAskedRet vm) written _ (λ e. tt)
        λ _.
          Ensures-seq (AsAskedRet vm) (files-Asked vm dir files)
            λ rest r. with_file-Asked vm _ rest (file_options-ro vm.volume_mount.read_only) r

  config_map-Asked :
      (vm : InstanceVolumeMount) (object : ℕ) → Asked vm (config_map_mounts c vm object)
  unfolding config_map_mounts
  config_map-Asked vm object = Ensures-bind c.mkdir_temp λ dir.
      Ensures-or_error (AsAskedRet vm) dir _ (λ e. tt)
        λ d. files-Asked vm d (c.config_map_data object)

  projected-Asked :
      (vm : InstanceVolumeMount) (ps : List InstanceVolumeProjection)
      → Asked vm (projected_mounts c vm ps)
  unfolding projected_mounts
  projected-Asked vm ps = Ensures-bind (c.mkdir_all (volume_dir c vm.volume)) λ made.
      Ensures-or_error (AsAskedRet vm) made _ (λ e. tt)
        λ _. Ensures-bind (write_projections c (volume_dir c vm.volume) ps) λ written.
          Ensures-or_error (AsAskedRet vm) written _ (λ e. tt)
            λ _. record { at = λ w. (rbind_options-ro vm.volume_mount.read_only, tt) }

  objects-Asked :
      (vm : InstanceVolumeMount) (s : Option (KeyedSource × Secret)) (m : Option (KeyedSource × ℕ))
      (ps : Option (List InstanceVolumeProjection))
      → Asked vm (object_mounts c vm s m ps)
  unfolding object_mounts
  objects-Asked vm (some s) m ps = record { at = λ w. tt }
  objects-Asked vm none (some r) ps = config_map-Asked vm r.1
  objects-Asked vm none none (some ps) = projected-Asked vm ps
  objects-Asked vm none none none = record { at = λ w. tt }

  source-Asked :
      (vm : InstanceVolumeMount) (source : VolumeSource) → Asked vm (source_mounts c vm source)
  unfolding source_mounts
  source-Asked vm (host_path h) = host_path-Asked vm h
  source-Asked vm empty_dir = record { at = λ w. tt }
  source-Asked vm nfs = record { at = λ w. tt }
  source-Asked vm other_source = objects-Asked vm _ _ _
  source-Asked vm (secret s) = objects-Asked vm _ _ _
  source-Asked vm (config_map s) = objects-Asked vm _ _ _
  source-Asked vm (projected ps) = objects-Asked vm _ _ _

  with_group :
      (vm : InstanceVolumeMount) (vms : List InstanceVolumeMount) (group : List Mount)
      (rest : Ret (List Mount))
      → AsAsked vm group
      → GroupedRet vms rest
      → Ensures
          (λ r (w : W). GroupedRet (vm ∷ vms) r)
          (or_return rest λ others. pure (ok (group ++ others)))
  with_group vm vms group (ok others) g r = record { at = λ w. (group, others, refl, g, r) }
  with_group vm vms group (err e) g r = record { at = λ w. tt }

  with_rest :
      (vm : InstanceVolumeMount) (vms : List InstanceVolumeMount) (group : Ret (List Mount))
      (rest : M W (Ret (List Mount)))
      → AsAskedRet vm group
      → Ensures (λ r w. GroupedRet vms r) rest
      → Ensures
          (λ r w. GroupedRet (vm ∷ vms) r)
          (or_return group
            λ mounts. rest >>= λ r. or_return r λ others. pure (ok (mounts ++ others)))
  with_rest vm vms (ok mounts) rest g h =
      Ensures-seq (GroupedRet vms) h λ r q. with_group vm vms mounts r g q
  with_rest vm vms (err e) rest g h = record { at = λ w. tt }

  all_mounts-Ensures :
      (vms : List InstanceVolumeMount) → Ensures (λ r (w : W). GroupedRet vms r) (all_mounts c vms)
  unfolding all_mounts mounts_of
  all_mounts-Ensures [] = record { at = λ w. refl }
  all_mounts-Ensures (vm ∷ vms) =
      Ensures-seq (AsAskedRet vm) (source-Asked vm vm.volume.volume.source)
        λ group g. with_rest vm vms group (all_mounts c vms) g (all_mounts-Ensures vms)

  -- Where the mounts of a container are made without an error, they are one group for each of its
  -- volume mounts, in their order, and the mounts of a group are read only if the volume mount is,
  -- and writable if it is not.
  pub all_mounts-Grouped :
      (vms : List InstanceVolumeMount) (w : W)
      → Ends (λ r w'. GroupedRet vms r) (all_mounts c vms w)
  all_mounts-Grouped vms w = (all_mounts-Ensures vms).at w
