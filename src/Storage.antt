-- ===== src/Storage.antt =====
-- The paths of pkg/storage: root.go, util.go, images.go, instances.go and volumes.go.
pub mod Images
use feather_multiruntimenetw.Common.{
  ℕ, zero, suc, [], ◌∷◌, Bool, false, Text, codes, text_eq, nat_eq, ◌==◌, ◌&&◌, leb, if◌then◌else◌,
}
use feather_multiruntimenetw.Common.Path.{join_path}

abbrev is_digit : ℕ → Bool
is_digit c = leb b'0' c && leb c b'9'

abbrev starts_with_digit : Text → Bool
starts_with_digit [] = false
starts_with_digit (c ∷ s) = is_digit c

-- The text without the matches of `:[0-9]{1,5}`, of which the last began `5 - n` digits ago.
unfoldable pub after_match : ℕ → Text → Text
after_match n [] = []
after_match zero (c ∷ s) =
    let inside = after_match 5 s in
    let outside = after_match zero s in
    if (c == b':') && starts_with_digit s then inside else c ∷ outside
after_match (suc n) (c ∷ s) =
    let skipped = after_match n s in
    let inside = after_match 5 s in
    let outside = after_match zero s in
    if is_digit c
    then skipped
    else if (c == b':') && starts_with_digit s
    then inside
    else c ∷ outside

-- `CleanName`
unfoldable pub clean_name : Text → Text
clean_name = after_match zero

-- `DefaultPath`, of the home directory.
unfoldable pub default_path : Text → Text
default_path [] = codes "/var/lib/fledge"
default_path (c ∷ home) = join_path ((c ∷ home) ∷ codes ".fledge" ∷ [])

-- `RootPath`, of the home directory and of the path that was set.
unfoldable pub root_path : Text → Text → Text
root_path home [] = default_path home
root_path home (c ∷ path) = c ∷ path

module _ (home set_path : Text) where
  unfoldable pub images_path : Text
  images_path = join_path (root_path home set_path ∷ codes "images" ∷ [])

  unfoldable pub image_path : Text → Text
  image_path name = join_path (images_path ∷ clean_name name ∷ [])

  unfoldable pub instances_path : Text
  instances_path = join_path (root_path home set_path ∷ codes "instances" ∷ [])

  unfoldable pub instance_path : Text → Text
  instance_path name = join_path (instances_path ∷ clean_name name ∷ [])

  unfoldable pub volumes_path : Text
  volumes_path = join_path (root_path home set_path ∷ codes "volumes" ∷ [])

  unfoldable pub volume_path : Text → Text
  volume_path name = join_path (volumes_path ∷ clean_name name ∷ [])
