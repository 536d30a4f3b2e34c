-- ===== src/Storage/Images.antt =====
-- The configuration and the layers of an image: pkg/storage/images.go.
use feather_multiruntimenetw.Common.{
  ℕ, List, [], Bool, true, false, Text, text_eq, codes, M, Ret, ok, err, message, ◌>>=◌, pure,
  or_return, ◌==◌, if◌then◌else◌,
}

-- The media types that the code names.
pub data MediaType : Type 0 where
  docker1_manifest docker1_manifest_signed docker2_manifest docker2_manifest_list : MediaType
  docker2_image_config oci1_manifest oci1_manifest_list other_media_type : MediaType

pub record Ref : Type 0 where
  pub registry : Text
  pub digest : Text
  pub handle : ℕ

-- Of a manifest, whether it is a list and whether it is that of an image.
pub record Manifest : Type 0 where
  pub media_type : MediaType
  pub is_list : Bool
  pub is_imager : Bool
  pub handle : ℕ

-- `ociv1ext.Image`, of which the backend and the hypervisor are read.
pub record Image : Type 0 where
  pub backend : Text
  pub hypervisor : Text

abbrev pub no_image : Image
no_image = record { backend = []; hypervisor = [] }

-- regclient, and the decoding of JSON. A descriptor and a blob are numbers.
pub record Registry (W : Type 0) : Type 0 where
  pub new_ref : Text → Ret Ref
  pub manifest_get : Ref → M W (Ret Manifest)
  pub platform_digest : Manifest → Ret Text
  pub get_config : Manifest → Ret ℕ
  pub get_layers : Manifest → Ret (List ℕ)
  pub blob_get : Ref → ℕ → M W (Ret ℕ)
  pub decode_image : ℕ → M W (Ret Image)

-- The media types of which ImageGetConfigWithClient reads a configuration.
unfoldable pub has_config : MediaType → Bool
has_config docker1_manifest = true
has_config docker1_manifest_signed = true
has_config docker2_manifest = true
has_config oci1_manifest = true
has_config docker2_manifest_list = true
has_config oci1_manifest_list = true
has_config _ = false

-- Those of which ImageGetLayersWithClient reads layers.
unfoldable pub has_layers : MediaType → Bool
has_layers docker1_manifest = true
has_layers docker1_manifest_signed = true
has_layers docker2_image_config = true
has_layers oci1_manifest = true
has_layers docker2_manifest_list = true
has_layers oci1_manifest_list = true
has_layers _ = false

abbrev pub unsupported : {A : Type 0} → Ret A
unsupported = err (message (codes "image has an unsupported media type"))

abbrev invalid : {A : Type 0} → Ret A
invalid = err (message (codes "reference does not represent a valid image"))

module _ {W : Type 0} (g : Registry W) where
  -- The manifest for the platform, where the one that was got is a list.
  unfoldable pub for_platform : Ref → Manifest → M W (Ret Manifest)
  for_platform r m =
      let found =
        or_return (g.platform_digest m) λ digest. g.manifest_get (record r { digest = digest }) in
      if m.is_list then found else pure (ok m)

  -- The beginning that the two functions share, by the media types that they take.
  unfoldable pub with_manifest :
      {A : Type 0} → (MediaType → Bool) → Ref → (Manifest → M W (Ret A)) → M W (Ret A)
  with_manifest takes r use_manifest = do
    got ← g.manifest_get r
    or_return got λ m.
        if takes m.media_type
        then (for_platform r m >>= λ p. or_return p use_manifest)
        else pure unsupported

  -- The configuration behind a descriptor; none is not an error.
  unfoldable pub read_config : Ref → Ret ℕ → M W (Ret Image)
  read_config r (err e) = pure (ok no_image)
  read_config r (ok d) = do blob ← g.blob_get r d; or_return blob λ b. g.decode_image b

  unfoldable pub config_of : Ref → Manifest → M W (Ret Image)
  config_of r m = if m.is_imager then read_config r (g.get_config m) else pure invalid

  -- `ImageGetConfigWithClient`
  unfoldable pub image_get_config_with_client : Ref → M W (Ret Image)
  image_get_config_with_client r = with_manifest has_config r (config_of r)

  unfoldable pub layers_of : Manifest → M W (Ret (List ℕ))
  layers_of m = if m.is_imager then pure (g.get_layers m) else pure invalid

  -- `ImageGetLayersWithClient`
  unfoldable pub image_get_layers_with_client : Ref → M W (Ret (List ℕ))
  image_get_layers_with_client r = with_manifest has_layers r layers_of

  abbrev no_registry : {A : Type 0} → Ret A
  no_registry = err (message (codes "reference does not contain a valid registry"))

  -- `ImageGetConfig`
  unfoldable pub image_get_config : Text → M W (Ret Image)
  image_get_config name =
      or_return (g.new_ref name)
        λ r. if r.registry == [] then pure no_registry else image_get_config_with_client r

  -- `ImageGetLayers`
  unfoldable pub image_get_layers : Text → M W (Ret (List ℕ))
  image_get_layers name =
      or_return (g.new_ref name)
        λ r. if r.registry == [] then pure no_registry else image_get_layers_with_client r
