-- ===== src/Fledge.antt =====
-- pkg/fledge: the volumes of a pod as directories, its highest status, and the taint of the node.
pub mod Highest
pub mod Cgroups
use feather_multiruntimenetw.Common.{
  ℕ, List, [], ◌∷◌, ◌++◌, Bool, true, false, Option, none, some, Text, text_eq, codes, M, Ret, ok,
  err, ◌>>=◌, ◌>>◌, pure, ◌==◌, if◌then◌else◌,
}
use feather_multiruntimenetw.Common.Dict.{Dict}
use feather_multiruntimenetw.Provider.Spec.{
  KeyedSource, HostPath, VolumeSource, host_path, secret, config_map, Volume, Pod,
}

-- The shell, the file system, and the secrets of a namespace.
pub record Shell (W : Type 0) : Type 0 where
  pub exec_shell_command : Text → M W (Unit {0})
  pub write_file : Text → Text → M W (Ret (Unit {0}))
  pub secret_data : Text → Text → M W (Ret (Dict Text Text))

-- `v1.PodCondition`, of which the type and the status are read.
pub record PodCondition : Type 0 where
  pub type : Text
  pub status : Text

-- A variable that is declared and not set.
abbrev pub no_condition : PodCondition
no_condition = record { type = []; status = [] }

-- The variables of `GetHighestPodStatus`.
pub record Conditions : Type 0 where
  pub scheduled : PodCondition
  pub initialized : PodCondition
  pub pod_ready : PodCondition
  pub pod_unschedulable : PodCondition

-- `v1.PodScheduled`, `v1.PodReady`, `v1.PodReasonUnschedulable` and `v1.PodInitialized`.
abbrev pub pod_scheduled : Text
pod_scheduled = codes "PodScheduled"

abbrev pub ready : Text
ready = codes "Ready"

abbrev pub unschedulable : Text
unschedulable = codes "Unschedulable"

abbrev pub initialized_type : Text
initialized_type = codes "Initialized"

-- The body of the loop over the conditions.
unfoldable pub sort_condition : Conditions → PodCondition → Conditions
sort_condition s c =
    if c.type == pod_scheduled
    then record s { scheduled = c }
    else if c.type == ready
    then record s { pod_ready = c }
    else if c.type == unschedulable
    then record s { pod_unschedulable = c }
    else if c.type == initialized_type
    then record s { initialized = c }
    else s

unfoldable pub sort_conditions : Conditions → List PodCondition → Conditions
sort_conditions s [] = s
sort_conditions s (c ∷ cs) = sort_conditions (sort_condition s c) cs

abbrev pub is_true : PodCondition → Bool
is_true c = c.status == codes "True"

-- The tests in their order.
unfoldable pub highest : Conditions → Option PodCondition
highest s =
    if is_true s.pod_unschedulable
    then some s.pod_unschedulable
    else if is_true s.pod_ready
    then some s.pod_ready
    else if is_true s.initialized
    then some s.initialized
    else if is_true s.scheduled
    then some s.scheduled
    else none

-- `GetHighestPodStatus`, of the conditions of the pod.
unfoldable pub get_highest_pod_status : List PodCondition → Option PodCondition
get_highest_pod_status conditions = highest (
    sort_conditions
      (record {
        scheduled = no_condition;
        initialized = no_condition;
        pod_ready = no_condition;
        pod_unschedulable = no_condition;
      })
      conditions)

-- `corev1.Taint`
pub record Taint : Type 0 where
  pub key : Text
  pub value : Text
  pub effect : Text

-- `GetTaint`
unfoldable pub get_taint : Text → Text → Text → Taint
get_taint provider [] value = record {
  key = codes "virtual-kubelet.io/provider";
  value = provider;
  effect = codes "NoSchedule";
}
get_taint provider (c ∷ key) value = record {
  key = c ∷ key;
  value = value;
  effect = codes "NoSchedule";
}

module _ {W : Type 0} (h : Shell W) where
  -- `MakeVolume`; what the shell returns is dropped.
  unfoldable pub make_volume : Text → Text → M W Text
  make_volume podname volname = do
    let dir = codes "/var/fledge/mounts/" ++ podname ++ codes "/" ++ volname
    made ← h.exec_shell_command (codes "mkdir -p " ++ dir)
    pure dir

  -- The loop that writes the files of a volume, whose errors are dropped.
  unfoldable pub write_files : Text → Dict Text Text → M W (Unit {0})
  write_files dir [] = pure tt
  write_files dir ((filename, contents) ∷ files) =
      h.write_file (dir ++ codes "/" ++ filename) contents >> write_files dir files

  -- `CreateVolumeFiles`
  unfoldable pub create_volume_files : Pod → Text → Dict Text Text → M W (Unit {0})
  create_volume_files pod vol_name files =
      make_volume pod.name vol_name >>= λ dir. write_files dir files

  -- The body of the loop of `CreateVolumes`; a config map makes nothing.
  unfoldable pub create_volume : Pod → Text → VolumeSource → M W (Unit {0})
  create_volume pod name (secret source) =
      h.secret_data (codes "kube-system") source.name >>= λ got. elim got [
        | ok files ↦ create_volume_files pod name files
        | err e ↦ pure tt
      ]
  create_volume pod name _ = pure tt

  -- `CreateVolumes`
  unfoldable pub create_volumes : Pod → List Volume → M W (Unit {0})
  create_volumes pod [] = pure tt
  create_volumes pod (v ∷ vs) = create_volume pod v.name v.source >> create_volumes pod vs

  -- `GetHostMountPath`: of a secret the config map is nil, and of all else the secret.
  unfoldable pub get_host_mount_path : Pod → Volume → M W (Option Text)
  get_host_mount_path pod v = elim v.source [
    | host_path h ↦ pure (some h.path)
    | _ ↦ make_volume pod.name v.name >>= λ dir. pure (some dir)
  ]
