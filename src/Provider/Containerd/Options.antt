-- ===== src/Provider/Containerd/Options.antt =====
-- The options of a container: CreateInstance and getPortsOpts of
-- pkg/provider/backend_containerd.go.
use feather_multiruntimenetw.Common.{
  ℕ, zero, suc, List, [], ◌∷◌, ◌++◌, Bool, true, false, ◌&&◌, Option, Text, text_eq, nat_eq, codes,
  M, Ret, ok, err, ◌>>=◌, pure, ◌==◌, if◌then◌else◌, length, ltb, ◌*◌, ◌-◌, map,
}
use feather_multiruntimenetw.Provider.Spec.{Container, ContainerPort, EnvVar, Instance}
use feather_multiruntimenetw.Provider.Containerd.{
  SpecOpt, with_process_cwd, with_cpu_cfs, with_memory_limit, with_host_namespace,
  with_host_hosts_file, with_host_resolvconf, with_network_namespace, with_image_config,
  with_image_config_args, ContainerOpt, with_image, with_image_config_labels, with_snapshotter,
  with_new_snapshot, with_image_stop_signal, with_port_labels, Client, wrap_containerd,
}

abbrev has_prefix : Text → Text → Bool
has_prefix [] s = true
has_prefix (x ∷ xs) [] = false
has_prefix (x ∷ xs) (y ∷ ys) = (x == y) && has_prefix xs ys

-- `strings.Replace` of every match of a text that is not empty; of the last match `n` bytes are
-- still to be passed over.
unfoldable pub replace : ℕ → Text → Text → Text → Text
replace n old new [] = []
replace (suc n) old new (c ∷ s) = replace n old new s
replace zero old new (c ∷ s) =
    let inside = replace (length old - 1) old new s in
    let outside = replace zero old new s in
    if has_prefix old (c ∷ s) then new ++ inside else c ∷ outside

-- A variable with a `ValueFrom` is one without a value and of another name.
abbrev pub read_var : EnvVar → EnvVar
read_var v = if v.value_from then record v { name = codes "DUMMY"; value = [] } else v

abbrev pub reference : Text → Text
reference name = codes "$(" ++ name ++ codes ")"

-- The loop over the variables, in the arguments.
unfoldable pub expand_args : List EnvVar → List Text → List Text
expand_args [] args = args
expand_args (v ∷ env) args =
    let u = read_var v in expand_args env (map (replace 0 (reference u.name) u.value) args)

abbrev pub plain_host : List SpecOpt
plain_host = with_host_namespace ∷ with_host_hosts_file ∷ with_host_resolvconf ∷ []

abbrev pub cwd_opts : Text → List SpecOpt
cwd_opts [] = []
cwd_opts (x ∷ dir) = with_process_cwd (x ∷ dir) ∷ []

-- The limits: a quota of 100 for each thousandth of a processor in a period of 100000.
unfoldable pub limit_opts : Container → List SpecOpt
limit_opts container =
    (if ltb 0 container.cpu_limit_millis
      then with_cpu_cfs (100 * container.cpu_limit_millis) 100000 ∷ []
      else [])
    ++ (if ltb 0 container.memory_limit then with_memory_limit container.memory_limit ∷ [] else [])

-- The options of the image.
unfoldable pub image_opts : Option ℕ → List Text → List SpecOpt
image_opts image [] = with_image_config image ∷ []
image_opts image (x ∷ args) = with_image_config_args image (x ∷ args) ∷ []

abbrev pub container_opts : Text → Option ℕ → List ContainerOpt
container_opts id image =
    with_image image
    ∷ with_image_config_labels image
    ∷ with_snapshotter
    ∷ with_new_snapshot id image
    ∷ with_image_stop_signal image
    ∷ []

module _ {W : Type 0} (c : Client W) where
  -- `NAME="value"`, of each variable.
  unfoldable pub env_texts : List EnvVar → List Text
  env_texts [] = []
  env_texts (v ∷ env) =
      let u = read_var v in (u.name ++ codes "=" ++ c.quote u.value) ∷ env_texts env

  -- `getPortsOpts`
  unfoldable pub get_ports_opts : List ContainerPort → Ret (List ContainerOpt)
  get_ports_opts ports = elim (c.marshal_ports ports) [
    | ok text ↦ ok (with_port_labels text ∷ [])
    | err e ↦ wrap_containerd (err e)
  ]

  abbrev namespace_opts : Ret Text → List SpecOpt
  namespace_opts (ok path) = with_network_namespace path ∷ []
  namespace_opts (err e) = plain_host

  -- The network namespace of the pod, or the host's if the pod has none.
  unfoldable pub network_opts : Instance → M W (List SpecOpt)
  network_opts i =
      if i.host_network
      then pure plain_host
      else (c.net_ns_path i.namespace i.pod_name >>= λ path. pure (namespace_opts path))
