-- ===== src/Provider/Instances.antt =====
-- newInstance of pkg/provider/instance.go.
pub mod Mounts
use feather_multiruntimenetw.Common.{
  ℕ, List, [], ◌∷◌, ◌++◌, Bool, true, false, Option, none, some, Text, text_eq, codes, Error, M,
  Ret, ok, err, message, wrapped, Outcome, done, panic, stuck, ◌>>=◌, pure, get, or_return,
  if◌then◌else◌,
}
use feather_multiruntimenetw.Common.Dict.{Dict, lookup, insert, contains}
use feather_multiruntimenetw.Provider.Spec.{
  Volume, VolumeMount, Container, Pod, InstanceVolume, InstanceVolumeMount, Instance,
}
use feather_multiruntimenetw.Provider.Identifier.{pod_and_container_to_identifier}
use feather_multiruntimenetw.Provider.Host.{Host, Provider}
use feather_multiruntimenetw.Provider.Volumes.{new_instance_volume}

-- `BackendContainerd`, of pkg/provider/backend.go.
abbrev pub backend_containerd : Text
backend_containerd = codes "containerd"

-- `if err != nil { return ..., errors.Wrapf(err, ...) }`
abbrev pub wrap_err : {A : Type 0} → Text → Ret A → Ret A
wrap_err text (ok a) = ok a
wrap_err text (err e) = err (wrapped text e)

abbrev pub collision : Ret (Option Instance)
collision = err (message (codes "name collision for instance"))

module _ {W : Type 0} where
  -- A call that works on what the provider calls alone.
  abbrev pub kern : {A : Type 0} → M W A → M (Provider W) A
  kern m s = elim (m s.world) [
    | done r ↦ done (r.0, record s { world = r.1 })
    | panic ↦ panic
    | stuck ↦ stuck
  ]

-- If no backend is defined, the image is run with containerd.
abbrev pub backend_name : Text → Text
backend_name [] = backend_containerd
backend_name (c ∷ name) = c ∷ name

-- `volumesByName`: of two volumes with one name the later.
unfoldable pub volumes_by_name : Dict Text Volume → List Volume → Dict Text Volume
volumes_by_name by_name [] = by_name
volumes_by_name by_name (v ∷ volumes) = volumes_by_name (insert v.name v by_name) volumes

module _ {W : Type 0} (h : Host W) where
  open h use {parse_docker_ref, image_get_config}

  -- The loop over the volume mounts of a container.
  unfoldable pub mount_volumes :
      Pod → Dict Text Volume → List VolumeMount → M W (Ret (List InstanceVolumeMount))
  mount_volumes pod by_name [] = pure (ok [])
  mount_volumes pod by_name (vm ∷ vms) =
      let rest = mount_volumes pod by_name vms in
      elim (lookup vm.name by_name) [
        | none ↦ pure (err (message (codes "failed to find volume in spec of pod")))
        | some v ↦ do
          volume ← new_instance_volume h pod v
          or_return volume λ iv. (do
            mounts ← rest
            or_return mounts λ ms. pure (ok (record { volume_mount = vm; volume = iv } ∷ ms)))
      ]

  -- The end of `newInstance`, once the name of the backend is known. On a backend that is not
  -- enabled it returns `errors.Wrapf(err, ...)` of an `err` that is nil, which is nil: no
  -- instance and no error.
  unfoldable pub on_backend : Pod → Container → Option ℕ → M (Provider W) (Ret (Option Instance))
  on_backend pod container none = pure (ok none)
  on_backend pod container (some backend) = do
    mounts ← kern (mount_volumes pod (volumes_by_name [] pod.volumes) container.volume_mounts)
    or_return mounts λ ms. pure (
        ok (
          some (record {
            id = pod_and_container_to_identifier pod container.name;
            backend = backend;
            container = container;
            volume_mounts = ms;
            host_network = pod.host_network;
            namespace = pod.namespace;
            pod_name = pod.name;
          })))

  -- `newInstance`, once the reference of the image is known.
  unfoldable pub with_image : Pod → Container → Text → M (Provider W) (Ret (Option Instance))
  with_image pod container image = do
    s ← get
    im ← kern (image_get_config image)
    or_return (wrap_err (codes "unable to get image config") im) λ backend.
        on_backend pod (record container { image = image })
          (lookup (backend_name backend) s.backends)

  abbrev pub parsed_image : Pod → Container → Option Text → M (Provider W) (Ret (Option Instance))
  parsed_image pod container none = pure (err (message (codes "failed parsing reference")))
  parsed_image pod container (some image) = with_image pod container image

  -- `newInstance`; nil without an error is `ok none`.
  unfoldable pub new_instance : Pod → Container → M (Provider W) (Ret (Option Instance))
  new_instance pod container s =
      let rest = parsed_image pod container (parse_docker_ref container.image) s in
      if contains (pod_and_container_to_identifier pod container.name) s.instances
      then done (collision, s)
      else rest
