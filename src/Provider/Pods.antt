-- ===== src/Provider/Pods.antt =====
-- pkg/provider/pod.go and container.go: the operations on pods and on their instances.
pub mod Tables
pub mod Lifecycle
pub mod Creation
pub mod Outcomes
pub mod Panics
pub mod Updates
pub mod Phases
use feather_multiruntimenetw.Common.{
  ℕ, List, [], ◌∷◌, ◌++◌, Bool, true, false, ◌&&◌, ◌||◌, Option, none, some, Text, text_eq, codes,
  Error, M, Ret, ok, err, message, Outcome, done, ◌>>=◌, ◌>>◌, pure, crash, get, modify, or_return,
  if◌then◌else◌, ◌==◌,
}
use feather_multiruntimenetw.Common.Dict.{Dict, lookup, insert}
use feather_multiruntimenetw.Provider.Spec.{
  Container, Pod, Instance, ContainerState, PodPhase, pod_pending, pod_running, pod_failed,
  PodStatus,
}
use feather_multiruntimenetw.Provider.Identifier.{
  pod_to_identifier, pod_and_container_to_identifier, join_identifier_from_parts,
}
use feather_multiruntimenetw.Provider.Host.{Host, Provider}
use feather_multiruntimenetw.Provider.Instances.{kern, new_instance, wrap_err}

-- `ok && (k8sApp == "calico-node" || k8sApp == "kube-proxy")`
unfoldable pub is_k8s_app : Pod → Bool
is_k8s_app pod = elim (lookup (codes "k8s-app") pod.labels) [
  | none ↦ false
  | some app ↦ app == codes "calico-node" || app == codes "kube-proxy"
]

values : Dict Text Pod → List Pod
values [] = []
values ((id, pod) ∷ pods) = pod ∷ values pods

abbrev pub all_containers : Pod → List Container
all_containers pod = pod.init_containers ++ pod.containers

module _ {W : Type 0} where
  -- `GetPod`
  unfoldable pub get_pod : Text → Text → Provider W → Ret Pod
  get_pod namespace name s =
      elim (lookup (join_identifier_from_parts (namespace ∷ name ∷ [])) s.pods) [
        | none ↦ err (message (codes "Pod not found"))
        | some pod ↦ ok pod
      ]

  -- `GetPods`
  unfoldable pub get_pods : Provider W → List Pod
  unfolding values
  get_pods s = values s.pods

  -- `getInstance`
  unfoldable pub get_instance : Text → Text → Text → Provider W → Option Instance
  get_instance namespace pod_name container_name s =
      lookup (join_identifier_from_parts (namespace ∷ pod_name ∷ container_name ∷ [])) s.instances

module _ {W : Type 0} (h : Host W) where
  open h use {
    create_instance, start_instance, delete_instance, get_instance_status, get_instance_logs,
    run_in_instance, init_pod_network, stop_pod_network,
  }

  -- `newInstance` and `Create` in the loop of `CreatePod`: the instance is used through its
  -- pointer.
  unfoldable pub create_one : Ret (Option Instance) → M (Provider W) (Ret Instance)
  create_one (err e) = pure (err e)
  create_one (ok none) = crash
  create_one (ok (some instance_)) = do
    created ← kern (create_instance instance_.backend instance_)
    or_return (wrap_err (codes "failed to create instance") created) λ _. pure (ok instance_)

  -- The loop of `CreatePod` over the containers.
  unfoldable pub create_instances : Pod → List Container → M (Provider W) (Ret (List Instance))
  create_instances pod [] = pure (ok [])
  create_instances pod (c ∷ cs) = do
    made ← new_instance h pod c
    one ← create_one (wrap_err (codes "failed to create instance for pod") made)
    or_return one
        λ i. (do others ← create_instances pod cs; or_return others λ is. pure (ok (i ∷ is)))

  -- The last loop of `CreatePod`: a failed start is only logged.
  unfoldable pub start_instances : List Instance → M (Provider W) (Ret (Unit {0}))
  start_instances [] = pure (ok tt)
  start_instances (i ∷ is) = do
    kern (start_instance i.backend i)
    modify (λ s. record s { instances = insert i.id i s.instances })
    start_instances is

  -- The rest of `CreatePod`, for a pod that is deployed; a failure of the network is only logged.
  unfoldable pub deploy : Pod → M (Provider W) (Ret (Unit {0}))
  deploy pod = do
    kern (init_pod_network pod.namespace pod.name)
    created ← create_instances pod (all_containers pod)
    or_return created λ instances_to_start. start_instances instances_to_start

  -- `CreatePod`
  unfoldable pub create_pod : Pod → M (Provider W) (Ret (Unit {0}))
  create_pod pod =
      modify (λ s. record s { pods = insert (pod_to_identifier pod) pod s.pods })
      >> (if is_k8s_app pod then pure (ok tt) else deploy pod)

  -- `instance.Delete()`, where the instance is found; its error is dropped.
  unfoldable pub delete_found : Option Instance → M (Provider W) (Unit {0})
  delete_found none = pure tt
  delete_found (some i) = kern (delete_instance i.backend i) >> pure tt

  -- The loop of `DeletePod` over the containers.
  unfoldable pub delete_instances : Pod → List Container → M (Provider W) (Unit {0})
  delete_instances pod [] = pure tt
  delete_instances pod (c ∷ cs) = do
    s ← get
    delete_found (lookup (pod_and_container_to_identifier pod c.name) s.instances)
    delete_instances pod cs

  -- `DeletePod`
  unfoldable pub delete_pod : Pod → M (Provider W) (Ret (Unit {0}))
  delete_pod pod = do
    delete_instances pod (all_containers pod)
    kern (stop_pod_network pod.namespace pod.name)
    pure (ok tt)

  -- `UpdatePod`
  unfoldable pub update_pod : Pod → M (Provider W) (Ret (Unit {0}))
  update_pod pod = delete_pod pod >>= λ r. or_return r λ _. create_pod pod

  -- The states of the containers, `none` where one has no instance.
  unfoldable pub states_of :
      Text → Text → List Container → M (Provider W) (Ret (Option (List ContainerState)))
  states_of namespace name [] = pure (ok (some []))
  states_of namespace name (c ∷ cs) = do
    s ← get
    let rest = states_of namespace name cs
    elim (get_instance namespace name c.name s) [
      | none ↦ pure (ok none)
      | some i ↦ do
        status ← kern (get_instance_status i.backend i)
        or_return (wrap_err (codes "osv") status) λ state. (do
          others ← rest
          or_return others λ states. elim states [
            | none ↦ pure (ok none)
            | some more ↦ pure (ok (some (state ∷ more)))
          ])
    ]

-- The flags `started` and `running` of `GetPodStatus` after one more container.
abbrev pub flags : Bool × Bool → ContainerState → Bool × Bool
flags (started, running) state =
    if state.running
    then (started, running)
    else if state.terminated
    then (started, false)
    else (false, running)

abbrev pub all_flags : Bool × Bool → List ContainerState → Bool × Bool
all_flags f [] = f
all_flags f (state ∷ states) = all_flags (flags f state) states

-- The end of `GetPodStatus`.
unfoldable pub phase_of : List ContainerState → PodPhase
phase_of states =
    let (started, running) = all_flags (true, true) states in
    if running then pod_running else if started then pod_failed else pod_pending

abbrev pub pending : PodStatus
pending = record { phase = pod_pending; init_container_statuses = []; container_statuses = [] }

abbrev pub pod_status : Option (List ContainerState) → Option (List ContainerState) → PodStatus
pod_status none _ = pending
pod_status (some init) none = pending
pod_status (some init) (some states) = record {
  phase = phase_of states;
  init_container_statuses = init;
  container_statuses = states;
}

module _ {W : Type 0} (h : Host W) where
  open h use {get_instance_logs, run_in_instance}

  -- The second loop of `GetPodStatus` and its end.
  abbrev status_after : Pod → Option (List ContainerState) → M (Provider W) (Ret PodStatus)
  status_after pod none = pure (ok pending)
  status_after pod (some init) = do
    states ← states_of h pod.namespace pod.name pod.containers
    or_return states λ found_states. pure (ok (pod_status (some init) found_states))

  -- `GetPodStatus`
  unfoldable pub get_pod_status : Text → Text → M (Provider W) (Ret PodStatus)
  get_pod_status namespace name = do
    s ← get
    or_return (get_pod namespace name s) λ pod. (do
      init ← states_of h pod.namespace pod.name pod.init_containers
      or_return init λ states. status_after pod states)

  abbrev no_instance : {A : Type 0} → Ret A
  no_instance = err (message (codes "failed to find instance"))

  -- `GetContainerLogs`
  unfoldable pub get_container_logs : Text → Text → Text → M (Provider W) (Ret ℕ)
  get_container_logs namespace pod_name container_name s =
      elim (get_instance namespace pod_name container_name s) [
        | none ↦ done (no_instance, s)
        | some i ↦ kern (get_instance_logs i.backend i) s
      ]

  -- `RunInContainer`
  unfoldable pub run_in_container : Text → Text → Text → List Text → M (Provider W) (Ret (Unit {0}))
  run_in_container namespace pod_name container_name cmd s =
      elim (get_instance namespace pod_name container_name s) [
        | none ↦ done (no_instance, s)
        | some i ↦ kern (run_in_instance i.backend i cmd) s
      ]
