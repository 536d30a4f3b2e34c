-- ===== src/Provider/Containerd/Volumes.antt =====
-- getVolumeMountsOpts of pkg/provider/backend_containerd.go.
use feather_multiruntimenetw.Common.{
  ℕ, List, [], ◌∷◌, ◌++◌, Bool, Option, none, some, Text, text_eq, codes, M, Ret, ok, err, message,
  wrapped, ◌>>=◌, pure, crash, or_return, ◌==◌, ◌||◌, if◌then◌else◌,
}
use feather_multiruntimenetw.Common.Dict.{Dict}
use feather_multiruntimenetw.Common.Path.{join_path}
use feather_multiruntimenetw.Storage.{volume_path}
use feather_multiruntimenetw.Provider.Spec.{
  HostPath, KeyedSource, VolumeSource, host_path, empty_dir, nfs, Secret, InstanceVolume,
  InstanceVolumeMount, InstanceVolumeProjection,
}
use feather_multiruntimenetw.Provider.Containerd.{
  Client, Mount, ContainerOpt, SpecOpt, with_mount_labels, with_mounts, wrap_containerd,
}

-- The options of a mount, with "ro" for what is read only.
abbrev pub bind_options : Text → Bool → List Text
bind_options bind read_only = bind ∷ (if read_only then codes "ro" ∷ [] else [])

-- Those of a file of a config map.
abbrev pub file_options : Bool → List Text
file_options read_only = codes "rbind" ∷ (if read_only then codes "ro" else codes "rw") ∷ []

abbrev unsupported_host_path : {A : Type 0} → Ret A
unsupported_host_path = err (message (codes "volumeMount has unsupported hostPath.type"))

abbrev unsupported_type : {A : Type 0} → Ret A
unsupported_type =
    err (wrapped (codes "osv") (message (codes "volumeMount has an unsupported type")))

module _ {W : Type 0} (c : Client W) where
  unfoldable pub volume_dir : InstanceVolume → Text
  volume_dir volume = volume_path c.home c.set_path volume.id

  -- The switch over the type of a host path; a type that is nil is dereferenced.
  unfoldable pub host_path_type : HostPath → M W (Ret (Unit {0}))
  host_path_type h = elim h.type [
    | none ↦ crash
    | some type ↦
        if type == codes "DirectoryOrCreate"
        then c.mkdir_all h.path
        else if (type == []) || (type == codes "Directory")
        then pure (ok tt)
        else pure unsupported_host_path
  ]

  unfoldable pub host_path_mounts : InstanceVolumeMount → HostPath → M W (Ret (List Mount))
  host_path_mounts vm h = do
    typed ← host_path_type h
    or_return typed λ _. pure (
        ok (
          record {
            source = h.path;
            destination = vm.volume_mount.mount_path;
            options = bind_options (codes "bind") vm.volume_mount.read_only;
          }
          ∷ []))

  -- The loop over the files of a config map, each of which is a mount of its own.
  unfoldable pub file_mounts : InstanceVolumeMount → Text → Dict Text Text → M W (Ret (List Mount))
  file_mounts vm dir [] = pure (ok [])
  file_mounts vm dir ((path, content) ∷ files) =
      c.write_file (join_path (dir ∷ path ∷ [])) content >>= λ written. or_return written λ _.
        file_mounts vm dir files >>= λ r. or_return r λ mounts. pure (
          ok (
            record {
              source = join_path (dir ∷ path ∷ []);
              destination = join_path (vm.volume_mount.mount_path ∷ path ∷ []);
              options = file_options vm.volume_mount.read_only;
            }
            ∷ mounts))

  unfoldable pub config_map_mounts : InstanceVolumeMount → ℕ → M W (Ret (List Mount))
  config_map_mounts vm object = do
    dir ← c.mkdir_temp
    or_return dir λ d. file_mounts vm d (c.config_map_data object)

  -- A loop that writes files into the directory of a projection.
  unfoldable pub write_all : Text → Dict Text Text → M W (Ret (Unit {0}))
  write_all dir [] = pure (ok tt)
  write_all dir ((key, content) ∷ files) =
      c.write_file (join_path (dir ∷ key ∷ [])) content >>= λ written.
      or_return written λ _. write_all dir files

  unfoldable pub write_secret : Text → Secret → M W (Ret (Unit {0}))
  write_secret dir object = do
    written ← write_all dir (c.secret_string_data object)
    or_return written λ _. write_all dir (c.secret_data object)

  -- The switch over the source of a projection; of another source nothing is written.
  unfoldable pub write_projection : Text → InstanceVolumeProjection → M W (Ret (Unit {0}))
  write_projection dir p = elim p.secret_object [
    | some r ↦ write_secret dir r.1
    | none ↦ elim p.config_map_object [
      | some r ↦ write_all dir (c.config_map_data r.1)
      | none ↦ elim p.service_account_object [
        | some object ↦ write_secret dir object
        | none ↦ pure (ok tt)
      ]
    ]
  ]

  unfoldable pub write_projections : Text → List InstanceVolumeProjection → M W (Ret (Unit {0}))
  write_projections dir [] = pure (ok tt)
  write_projections dir (p ∷ ps) =
      write_projection dir p >>= λ written. or_return written λ _. write_projections dir ps

  unfoldable pub projected_mounts :
      InstanceVolumeMount → List InstanceVolumeProjection → M W (Ret (List Mount))
  projected_mounts vm ps = do
    made ← c.mkdir_all (volume_dir vm.volume)
    or_return made λ _. (do
      written ← write_projections (volume_dir vm.volume) ps
      or_return written λ _. pure (
          ok (
            record {
              source = volume_dir vm.volume;
              destination = vm.volume_mount.mount_path;
              options = bind_options (codes "rbind") vm.volume_mount.read_only;
            }
            ∷ [])))

  -- The cases of a secret, which is ignored, of a config map and of a projection, on what was
  -- looked up.
  unfoldable pub object_mounts :
      InstanceVolumeMount
      → Option (KeyedSource × Secret)
      → Option (KeyedSource × ℕ)
      → Option (List InstanceVolumeProjection)
      → M W (Ret (List Mount))
  object_mounts vm (some s) m ps = pure (ok [])
  object_mounts vm none (some r) ps = config_map_mounts vm r.1
  object_mounts vm none none (some ps) = projected_mounts vm ps
  object_mounts vm none none none = pure unsupported_type

  -- The switch over the source of a volume.
  unfoldable pub source_mounts : InstanceVolumeMount → VolumeSource → M W (Ret (List Mount))
  source_mounts vm (host_path h) = host_path_mounts vm h
  source_mounts vm empty_dir = pure (ok [])
  source_mounts vm nfs = pure (ok [])
  source_mounts vm _ =
      object_mounts vm vm.volume.secret_object vm.volume.config_map_object vm.volume.projections

  -- The body of the loop: the mounts of one volume.
  unfoldable pub mounts_of : InstanceVolumeMount → M W (Ret (List Mount))
  mounts_of vm = source_mounts vm vm.volume.volume.source

  -- The loop over the volume mounts.
  unfoldable pub all_mounts : List InstanceVolumeMount → M W (Ret (List Mount))
  all_mounts [] = pure (ok [])
  all_mounts (vm ∷ vms) = mounts_of vm >>= λ r.
      or_return r
        λ mounts. all_mounts vms >>= λ rest. or_return rest λ others. pure (ok (mounts ++ others))

  -- `getVolumeMountsOpts`
  unfoldable pub get_volume_mounts_opts :
      List InstanceVolumeMount → M W (Ret (List ContainerOpt × List SpecOpt))
  get_volume_mounts_opts vms = do
    r ← all_mounts vms
    or_return r λ mounts.
        or_return (wrap_containerd (c.marshal_mounts mounts))
          λ text. pure (ok (with_mount_labels text ∷ [], with_mounts mounts ∷ []))
