-- ===== src/Provider/Osv/Mounts.antt =====
-- The volumes of a virtual machine: extendWith and getVolumeMountExtras of
-- pkg/provider/backend_osv.go.
use feather_multiruntimenetw.Common.{
  ℕ, suc, List, [], ◌∷◌, ◌++◌, none, some, Text, text_eq, codes, M, Ret, ok, err, message, ◌>>=◌,
  pure, crash, or_return, ◌==◌, if◌then◌else◌,
}
use feather_multiruntimenetw.Common.Dict.{Dict}
use feather_multiruntimenetw.Common.Decimal.{decimal}
use feather_multiruntimenetw.Common.Path.{join_path}
use feather_multiruntimenetw.Provider.Spec.{
  HostPath, host_path, nfs, InstanceVolume, InstanceVolumeMount, Instance,
}
use feather_multiruntimenetw.Provider.Osv.{Machine, OsvExtras}
use feather_multiruntimenetw.Provider.Osv.Paths.{volumes_dir}

abbrev pub no_extras : OsvExtras
no_extras = record { vm_proc = []; vm_args = []; vm_opts = [] }

-- `extendWith`
unfoldable pub extend_with : OsvExtras → OsvExtras → OsvExtras
extend_with e other = record {
  vm_proc = e.vm_proc ++ other.vm_proc;
  vm_args = e.vm_args ++ other.vm_args;
  vm_opts = e.vm_opts ++ other.vm_opts;
}

-- The daemon for a directory that is shared over a socket.
abbrev virtiofsd : Text → Text → List Text
virtiofsd socket_path dir =
    codes "virtiofsd"
    ∷ codes "--socket-path"
    ∷ socket_path
    ∷ codes "--shared-dir"
    ∷ dir
    ∷ codes "--no-announce-submounts"
    ∷ []

-- The arguments with the index of the character device.
abbrev device_args : ℕ → Text → Text → List Text
device_args n socket_path tag =
    codes "-chardev"
    ∷ (codes "socket,id=char" ++ decimal n ++ codes ",path=" ++ socket_path)
    ∷ codes "-device"
    ∷ (codes "vhost-user-fs-pci,queue-size=1024,chardev=char" ++ decimal n ++ codes ",tag=" ++ tag)
    ∷ []

abbrev mount_fs : ℕ → Text → List Text
mount_fs n path = (codes "--mount-fs=virtiofs,/dev/virtiofs" ++ decimal n ++ codes "," ++ path) ∷ []

abbrev unsupported_host_path : {A : Type 0} → Ret A
unsupported_host_path = err (message (codes "volumeMount has unsupported hostPath.type"))

module _ {W : Type 0} (m : Machine W) where
  open m use {exists, mkdir_all, write_file, config_map_data}

  -- The creation of the directory of volumes.
  unfoldable pub ensure_volumes_dir : M W (Ret (Unit {0}))
  ensure_volumes_dir = do
    there ← exists (volumes_dir m)
    if there then pure (ok tt) else mkdir_all (volumes_dir m)

  -- The switch over the type of a host path; a type that is nil is dereferenced.
  unfoldable pub host_path_type : HostPath → M W (Ret (Unit {0}))
  host_path_type h = elim h.type [
    | none ↦ crash
    | some type ↦
        if type == codes "DirectoryOrCreate"
        then mkdir_all h.path
        else if type == codes "Directory"
        then pure (ok tt)
        else pure unsupported_host_path
  ]

  abbrev pub socket_path : InstanceVolume → Text
  socket_path volume = join_path (volumes_dir m ∷ (volume.id ++ codes ".sock") ∷ [])

  unfoldable pub host_path_extras : ℕ → InstanceVolumeMount → HostPath → M W (Ret OsvExtras)
  host_path_extras n vm h = do
    typed ← host_path_type h
    or_return typed λ _. pure (
        ok (record {
          vm_proc = virtiofsd (socket_path vm.volume) h.path ∷ [];
          vm_args = device_args n (socket_path vm.volume) vm.volume.volume.name;
          vm_opts = mount_fs n vm.volume_mount.mount_path;
        }))

  -- The loop that writes the files of a config map.
  unfoldable pub write_all : Text → Dict Text Text → M W (Ret (Unit {0}))
  write_all dir [] = pure (ok tt)
  write_all dir ((path, content) ∷ files) = do
    written ← write_file (join_path (dir ∷ path ∷ [])) content
    or_return written λ _. write_all dir files

  unfoldable pub config_map_extras : Instance → ℕ → InstanceVolumeMount → ℕ → M W (Ret OsvExtras)
  config_map_extras i n vm object = do
    let dir =
        join_path (volumes_dir m ∷ (i.id ++ codes "_configmaps") ∷ vm.volume_mount.mount_path ∷ [])
    made ← mkdir_all dir
    or_return made λ _. (do
      written ← write_all dir (config_map_data object)
      or_return written λ _. pure (
          ok (record {
            vm_proc = virtiofsd (socket_path vm.volume) dir ∷ [];
            vm_args = device_args 0 (socket_path vm.volume) vm.volume.volume.name;
            vm_opts = mount_fs n (codes "/run/kubernetes/configmaps");
          })))

  abbrev pub unsupported_type : Ret OsvExtras
  unsupported_type = err (message (codes "volumeMount has an unsupported type"))

  -- The cases after those of a secret and of NFS, which are ignored like a projection.
  unfoldable pub looked_up_extras : Instance → ℕ → InstanceVolumeMount → M W (Ret OsvExtras)
  looked_up_extras i n vm = elim vm.volume.config_map_object [
    | some r ↦ config_map_extras i n vm r.1
    | none ↦ elim vm.volume.projections [
      | some _ ↦ pure (ok no_extras)
      | none ↦ pure unsupported_type
    ]
  ]

  -- The switch over the source of the volume.
  unfoldable pub volume_extras : Instance → ℕ → InstanceVolumeMount → M W (Ret OsvExtras)
  volume_extras i n vm = elim vm.volume.volume.source [
    | host_path h ↦ host_path_extras n vm h
    | nfs ↦ pure (ok no_extras)
    | _ ↦ elim vm.volume.secret_object [
      | some _ ↦ pure (ok no_extras)
      | none ↦ looked_up_extras i n vm
    ]
  ]

  -- `getVolumeMountExtras`
  unfoldable pub get_volume_mount_extras : Instance → ℕ → InstanceVolumeMount → M W (Ret OsvExtras)
  get_volume_mount_extras i n vm = do
    made ← ensure_volumes_dir
    or_return made λ _. volume_extras i n vm

  -- The loop over the volume mounts in `CreateInstance`.
  unfoldable pub all_extras :
      Instance → ℕ → OsvExtras → List InstanceVolumeMount → M W (Ret OsvExtras)
  all_extras i n e [] = pure (ok e)
  all_extras i n e (vm ∷ vms) = get_volume_mount_extras i n vm >>= λ r.
      or_return r λ other. all_extras i (suc n) (extend_with e other) vms
