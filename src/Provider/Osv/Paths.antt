-- ===== src/Provider/Osv/Paths.antt =====
-- The paths of pkg/provider/backend_osv.go, from imageDir to volumePath.
use feather_multiruntimenetw.Common.{
  ℕ, [], ◌∷◌, ◌++◌, Text, codes, text_eq, nat_eq, ◌==◌, if◌then◌else◌,
}
use feather_multiruntimenetw.Common.Path.{join_path, base_path}
use feather_multiruntimenetw.Storage.{clean_name}
use feather_multiruntimenetw.Provider.Spec.{Instance}
use feather_multiruntimenetw.Provider.Osv.{Machine}

-- `strings.ReplaceAll` of one byte by another.
abbrev pub replace_all : ℕ → ℕ → Text → Text
replace_all old new [] = []
replace_all old new (c ∷ s) = (if c == old then new else c) ∷ replace_all old new s

module _ {W : Type 0} (m : Machine W) where
  open m use {config_dir, repo_path}

  unfoldable pub image_dir : Text → Text
  image_dir image_ref =
      join_path (repo_path ∷ codes "fledge" ∷ replace_all b'/' b'_' (clean_name image_ref) ∷ [])

  unfoldable pub image_info_path : Text → Text
  image_info_path image_ref = join_path (image_dir image_ref ∷ codes "index.yaml" ∷ [])

  unfoldable pub image_conf_path : Text → Text
  image_conf_path image_ref = join_path (image_dir image_ref ∷ codes "config.yaml" ∷ [])

  unfoldable pub image_disk_path : Text → Text → Text
  image_disk_path image_ref hypervisor =
      let dir = image_dir image_ref in
      join_path (dir ∷ base_path dir ∷ []) ++ codes "." ++ hypervisor

  unfoldable pub instance_dir : Instance → Text
  instance_dir i = join_path (config_dir ∷ codes "instances/qemu" ∷ i.id ∷ [])

  unfoldable pub instance_conf_path : Instance → Text
  instance_conf_path i = join_path (instance_dir i ∷ codes "osv.config" ∷ [])

  unfoldable pub instance_moni_path : Instance → Text
  instance_moni_path i = join_path (instance_dir i ∷ codes "osv.monitor" ∷ [])

  unfoldable pub instance_sock_path : Instance → Text
  instance_sock_path i = join_path (instance_dir i ∷ codes "osv.socket" ∷ [])

  unfoldable pub instance_logs_path : Instance → Text
  instance_logs_path i = join_path (instance_dir i ∷ codes "osv.logs" ∷ [])

  unfoldable pub volumes_dir : Text
  volumes_dir = join_path (config_dir ∷ codes "volumes/qemu" ∷ [])

  unfoldable pub volume_path : Text → Text
  volume_path volume_id = join_path (volumes_dir ∷ volume_id ∷ [])
