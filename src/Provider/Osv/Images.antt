-- ===== src/Provider/Osv/Images.antt =====
-- pullInstanceImage of pkg/provider/backend_osv.go.
use feather_multiruntimenetw.Common.{
  List, [], ◌∷◌, Bool, Text, text_eq, nat_eq, codes, M, Ret, ok, err, message, ◌>>=◌, pure,
  or_return, ◌==◌, ◌||◌, if◌then◌else◌, length, drop, ◌-◌, leb, ◌&&◌,
}
use feather_multiruntimenetw.Provider.Osv.{Machine, ImageRef, Descriptor}
use feather_multiruntimenetw.Provider.Osv.Paths.{image_dir, image_info_path, image_disk_path}

-- `strings.HasSuffix`
abbrev pub has_suffix : Text → Text → Bool
has_suffix s suffix = leb (length suffix) (length s) && drop (length s - length suffix) s == suffix

-- `MediaTypeOCI1Layer` or `MediaTypeOCI1LayerGzip`
abbrev pub is_layer : Text → Bool
is_layer t =
    (t == codes "application/vnd.oci.image.layer.v1.tar")
    || (t == codes "application/vnd.oci.image.layer.v1.tar+gzip")

module _ {W : Type 0} (m : Machine W) where
  -- The removal of an image that is there.
  unfoldable pub remove_image : Text → M W (Ret (Unit {0}))
  remove_image dir = do there ← m.exists dir; if there then m.remove_all dir else pure (ok tt)

  -- The file index.yaml.
  unfoldable pub write_info : Text → ImageRef → M W (Ret (Unit {0}))
  write_info image_ref r = do
    created ← m.now
    file ← m.create_file (image_info_path m image_ref)
    or_return file λ f.
        or_return (m.marshal_info (record { version = r.tag; created = created }))
          λ info. m.write_to f info

  -- The disk of the image, from the first entry of the layer.
  unfoldable pub pull_layer : Text → Text → ImageRef → Descriptor → M W (Ret (Unit {0}))
  pull_layer image_ref hypervisor r layer = do
    blob ← m.blob_get r layer
    or_return blob λ b. (do
      layer_reader ← m.to_tar_reader b
      or_return layer_reader λ lr. (do
        tar_reader ← m.get_tar_reader lr
        or_return tar_reader λ tr. (do
          next ← m.next_name tr
          or_return next λ name.
              if has_suffix name (codes ".qemu")
              then (do
                file ← m.create_file (image_disk_path m image_ref hypervisor)
                or_return file λ f. m.copy_to f tr)
              else pure (err (message (codes "unexpected file in layer of image"))))))

  -- The layers, of which there is one.
  unfoldable pub pull_layers : Text → Text → ImageRef → List Descriptor → M W (Ret (Unit {0}))
  pull_layers image_ref hypervisor r (layer ∷ []) =
      if is_layer layer.media_type
      then pull_layer image_ref hypervisor r layer
      else pure (err (message (codes "layer media type is not supported")))
  pull_layers image_ref hypervisor r _ =
      pure (err (message (codes "image does not contain just one layer")))

  -- `pullInstanceImage`, once the reference is parsed.
  unfoldable pub pull_ref : Text → Text → ImageRef → M W (Ret (Unit {0}))
  pull_ref image_ref hypervisor r =
      if r.registry == []
      then pure (err (message (codes "reference does not contain a valid registry")))
      else (do
        info ← write_info image_ref r
        or_return info λ _. (do
          layers ← m.image_layers r
          or_return layers λ ls. pull_layers image_ref hypervisor r ls))

  -- `pullInstanceImage`
  unfoldable pub pull_instance_image : Text → Text → M W (Ret (Unit {0}))
  pull_instance_image image_ref hypervisor = do
    removed ← remove_image (image_dir m image_ref)
    or_return removed λ _. (do
      made ← m.mkdir_all (image_dir m image_ref)
      or_return made λ _. or_return (m.new_ref image_ref) λ r. pull_ref image_ref hypervisor r)
