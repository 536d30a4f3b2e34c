-- ===== src/Provider/Containerd/Tasks.antt =====
-- GetInstanceStatus, StartInstance, KillInstance, DeleteInstance, GetInstanceLogs, RunInInstance
-- and NewContainerdBackend of pkg/provider/backend_containerd.go.
use feather_multiruntimenetw.Common.{
  ℕ, List, [], ◌∷◌, ◌++◌, Bool, Text, text_eq, nat_eq, codes, M, Ret, ok, err, message, ◌>>=◌, ◌>>◌,
  pure, or_return, ◌==◌, if◌then◌else◌,
}
use feather_multiruntimenetw.Common.Path.{join_path}
use feather_multiruntimenetw.Storage.{instance_path}
use feather_multiruntimenetw.Provider.Host.{Got, found, not_found, unavailable}
use feather_multiruntimenetw.Provider.Containerd.{
  is_created, is_running, is_pausing, is_paused, is_stopped, is_unknown, TaskStatus, Info, Client,
  wrap_containerd, not_got,
}

-- `ContainerState`, of whose members at most one is set: the time of the start; and of an end the
-- exit code, and the times of the start and of the end.
pub data TaskState : Type 0 where
  starting : TaskState
  running : ℕ → TaskState
  terminated : ℕ → ℕ → ℕ → TaskState

-- The switch over the status of the task; the time of the start of what runs is `ExitTime`.
unfoldable pub state_of : Info → TaskStatus → TaskState
state_of info s = elim s.status [
  | is_created ↦ starting
  | is_running ↦ running s.exit_time
  | is_pausing ↦ running s.exit_time
  | is_paused ↦ running s.exit_time
  | is_stopped ↦ terminated s.exit_status info.created_at s.exit_time
  | is_unknown ↦ terminated s.exit_status info.created_at s.exit_time
]

abbrev pub got : {A : Type 0} → Got A → Ret A
got (found a) = ok a
got not_found = err not_got
got unavailable = err not_got

module _ {W : Type 0} (c : Client W) where
  unfoldable pub instance_dir : Text → Text
  instance_dir id = instance_path c.home c.set_path id

  unfoldable pub instance_logs_path : Text → Text
  instance_logs_path id = join_path (instance_dir id ∷ codes "current.logs" ∷ [])

  -- A container that is loaded.
  unfoldable pub loaded : {A : Type 0} → Text → (ℕ → M W (Ret A)) → M W (Ret A)
  loaded id use_container = do
    container ← c.load_container id
    or_return (wrap_containerd (got container)) use_container

  -- The task of a container that is loaded.
  unfoldable pub with_task : {A : Type 0} → Text → (ℕ → M W (Ret A)) → M W (Ret A)
  with_task id use_task =
      loaded id λ container. (do
        task ← c.get_task container
        or_return (wrap_containerd (got task)) use_task)

  -- `GetInstanceStatus`
  unfoldable pub get_instance_status : Text → M W (Ret (Text × TaskState))
  get_instance_status id = loaded id λ container. (do
    info ← c.container_info container
    or_return (wrap_containerd info) λ i. (do
      task ← c.get_task container
      or_return (wrap_containerd (got task)) λ t. (do
        status ← c.task_status t
        or_return (wrap_containerd status) λ s. pure (ok (i.id, state_of i s)))))

  -- `StartInstance`
  unfoldable pub start_instance : Text → M W (Ret (Unit {0}))
  start_instance id =
      with_task id λ task. (do started ← c.start_task task; pure (wrap_containerd started))

  -- `KillInstance`
  unfoldable pub kill_instance : Text → ℕ → M W (Ret (Unit {0}))
  kill_instance id signal =
      with_task id λ task. (do killed ← c.kill_task task signal; pure (wrap_containerd killed))

  -- The function inside `DeleteInstance`, on the task.
  unfoldable pub delete_got_task : Got ℕ → M W (Ret (Unit {0}))
  delete_got_task (found task) = c.delete_task task
  delete_got_task not_found = pure (ok tt)
  delete_got_task unavailable = pure (err not_got)

  -- `DeleteInstance`, on the container.
  unfoldable pub delete_got : Got ℕ → M W (Ret (Unit {0}))
  delete_got not_found = pure (ok tt)
  delete_got unavailable = pure (wrap_containerd (err not_got))
  delete_got (found container) = do
    task ← c.get_task container
    task_deleted ← delete_got_task task
    or_return (wrap_containerd task_deleted)
        λ _. (do deleted ← c.delete_container container; pure (wrap_containerd deleted))

  -- `DeleteInstance`
  unfoldable pub delete_instance : Text → M W (Ret (Unit {0}))
  delete_instance id = do container ← c.load_container id; delete_got container

  -- `GetInstanceLogs`
  unfoldable pub get_instance_logs : Text → M W (Ret ℕ)
  get_instance_logs id = do
    logger ← c.new_container_logger (instance_logs_path id)
    pure (wrap_containerd logger)

  -- The end of `RunInInstance`, on the exit code.
  unfoldable pub exit_result : Ret ℕ → Ret (Unit {0})
  exit_result (err e) = wrap_containerd (err e)
  exit_result (ok code) =
      if code == 0
      then ok tt
      else wrap_containerd (err (message (codes "exec failed with exit code")))

  -- The process of `RunInInstance`, which is deleted in the end.
  unfoldable pub run_process : ℕ → M W (Ret (Unit {0}))
  run_process process = do
    status ← c.wait_process process
    or_return (wrap_containerd status) λ status_c. (do
      started ← c.start_process process
      or_return (wrap_containerd started)
          λ _. (do code ← c.exit_code status_c; pure (exit_result code)))

  -- `RunInInstance`
  unfoldable pub run_in_instance : Text → List Text → Bool → M W (Ret (Unit {0}))
  run_in_instance id cmd tty = with_task id λ task. (do
    uuid ← c.new_uuid
    process ← c.exec_process task (codes "exec-" ++ uuid) tty cmd
    or_return (wrap_containerd process)
        λ p. (do result ← run_process p; deleted ← c.delete_process p; pure result))

  -- The loop of `NewContainerdBackend` over the containers that are there, whose errors are
  -- logged.
  unfoldable pub scrub : List Text → M W (Unit {0})
  scrub [] = pure tt
  scrub (id ∷ ids) = delete_instance id >> scrub ids

  -- `NewContainerdBackend`, once there is a client.
  unfoldable pub new_containerd_backend : M W (Unit {0})
  new_containerd_backend = do ids ← c.containers; elim ids [ ok ids ↦ scrub ids | err e ↦ pure tt ]
