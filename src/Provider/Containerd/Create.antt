-- ===== src/Provider/Containerd/Create.antt =====
-- CreateInstance and UpdateInstance of pkg/provider/backend_containerd.go.
use feather_multiruntimenetw.Common.{
  ℕ, List, [], ◌∷◌, ◌++◌, Bool, true, false, Option, none, some, Text, M, Ret, ok, err, ◌>>=◌, ◌>>◌,
  pure, or_return, if◌then◌else◌,
}
use feather_multiruntimenetw.Provider.Spec.{
  Instance, PullPolicy, pull_always, pull_if_not_present, pull_other,
}
use feather_multiruntimenetw.Provider.Containerd.{
  SpecOpt, with_env, ContainerOpt, with_new_spec, Client, wrap_containerd,
}
use feather_multiruntimenetw.Provider.Containerd.Tasks.{
  delete_instance, instance_dir, instance_logs_path,
}
use feather_multiruntimenetw.Provider.Containerd.Volumes.{get_volume_mounts_opts}
use feather_multiruntimenetw.Provider.Containerd.Options.{
  expand_args, cwd_opts, limit_opts, image_opts, container_opts, env_texts, get_ports_opts,
  network_opts,
}

abbrev pub as_image : Ret ℕ → Option ℕ
as_image (ok image) = some image
as_image (err e) = none

-- Whether the image is pulled, on what `GetImage` returned.
abbrev pub needs_pull : Ret ℕ → PullPolicy → Bool
needs_pull there pull_always = true
needs_pull (ok image) pull_if_not_present = false
needs_pull (err e) pull_if_not_present = true
needs_pull there pull_other = false

module _ {W : Type 0} (c : Client W) where
  -- An image that is always pulled is deleted first.
  unfoldable pub drop_image : Text → PullPolicy → M W (Unit {0})
  drop_image image pull_always = c.delete_image image >> pure tt
  drop_image image _ = pure tt

  unfoldable pub pull : Text → M W (Ret (Option ℕ))
  pull image = or_return (wrap_containerd (c.parse_docker_ref image)) λ named. (do
    resolver ← c.new_resolver named.1
    or_return (wrap_containerd resolver) λ r. (do
      pulled ← c.pull_image named.0 r
      or_return (wrap_containerd pulled) λ i. pure (ok (some i))))

  -- The image; one that is not there and is not to be pulled is nil.
  unfoldable pub ensure_image : Text → PullPolicy → M W (Ret (Option ℕ))
  ensure_image image policy = do
    there ← c.get_image image
    let pulled = drop_image image policy >> pull image
    if needs_pull there policy then pulled else pure (ok (as_image there))

  -- The task of a container, with its file of logs.
  unfoldable pub make_task : Instance → ℕ → M W (Ret (Unit {0}))
  make_task i container = do
    made ← c.mkdir_all (instance_dir c i.id)
    or_return (wrap_containerd made) λ _. (do
      file ← c.create_file (instance_logs_path c i.id)
      or_return (wrap_containerd file) λ _. (do
        task ← c.new_task container i.container.tty
        or_return (wrap_containerd task)
            λ t. (do waited ← c.wait_task t; pure (wrap_containerd waited))))

  -- The specification, and the container that is made with it.
  unfoldable pub make_container :
      Instance
      → Option ℕ
      → List ContainerOpt
      → List ContainerOpt × List SpecOpt
      → M W (Ret (Unit {0}))
  make_container i image port_opts mount_opts = do
    network ← network_opts c i
    let args = expand_args i.container.env (i.container.command ++ i.container.args)
    let spec =
        cwd_opts i.container.working_dir
        ++ with_env (env_texts c i.container.env) ∷ limit_opts i.container
        ++ mount_opts.1
        ++ network
        ++ image_opts image args
    let opts = container_opts i.id image ++ port_opts ++ mount_opts.0 ++ with_new_spec spec ∷ []
    container ← c.new_container i.id opts
    or_return (wrap_containerd container) λ n. make_task i n

  -- `CreateInstance`, once the image is there.
  unfoldable pub assemble : Instance → Option ℕ → M W (Ret (Unit {0}))
  assemble i image = or_return (wrap_containerd (get_ports_opts c i.container.ports)) λ ports. (do
    mounts ← get_volume_mounts_opts c i.volume_mounts
    or_return (wrap_containerd mounts) λ opts. make_container i image ports opts)

  -- `CreateInstance`; an error of `DeleteInstance` is logged.
  unfoldable pub create_instance : Instance → M W (Ret (Unit {0}))
  create_instance i = do
    deleted ← delete_instance c i.id
    image ← ensure_image i.container.image i.container.image_pull_policy
    or_return image λ im. assemble i im

  -- `UpdateInstance`
  unfoldable pub update_instance : Instance → M W (Ret (Unit {0}))
  update_instance i = do deleted ← delete_instance c i.id; or_return deleted λ _. create_instance i
