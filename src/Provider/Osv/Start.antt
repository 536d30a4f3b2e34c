-- ===== src/Provider/Osv/Start.antt =====
-- StartInstance of pkg/provider/backend_osv.go, and the routine that it leaves behind.
use feather_multiruntimenetw.Common.{
  ◌^◌, ◌-◌, ◌++◌, ℕ, List, [], ◌∷◌, Option, none, some, Text, text_eq, codes, M, Ret, ok, err,
  ◌>>=◌, ◌>>◌, pure, crash, get, modify, or_return, ◌==◌, if◌then◌else◌, set,
}
use feather_multiruntimenetw.Common.Decimal.{decimal}
use feather_multiruntimenetw.Common.Dict.{lookup}
use feather_multiruntimenetw.Provider.Spec.{Instance}
use feather_multiruntimenetw.Provider.Osv.{
  Machine, Osv, OsvExtras, VmState, running, terminated, VmStatus, Watcher, on_machine, wrap_osv,
  osv_error,
}
use feather_multiruntimenetw.Provider.Osv.Paths.{instance_logs_path}
use feather_multiruntimenetw.Provider.Osv.Stop.{deref, no_instance, no_platform, qemu}

-- What `Wait` of a command returns: nil, an `ExitError` with its code, or another error, with its
-- text in quotes.
pub data WaitResult : Type 0 where
  no_error : WaitResult
  exit_error : ℕ → WaitResult
  other_error : Text → WaitResult

-- `ExecParseError` of pkg/util/exec.go; the code has 32 bits. The message is made from the code
-- before it is set, which is 0.
unfoldable pub exec_parse_error : WaitResult → ℕ × Text
exec_parse_error no_error = (0, codes "exited gracefully")
exec_parse_error (exit_error code) = (code, codes "exited with code " ++ decimal 0)
exec_parse_error (other_error text) = (2 ^ 32 - 1, codes "exited with error " ++ text)

module _ {W : Type 0} (m : Machine W) where
  -- A side process; a command without a name panics.
  unfoldable pub start_process : ℕ → List Text → M W (Ret (Unit {0}))
  start_process context [] = crash
  start_process context (name ∷ args) = do
    started ← m.start_process context name args
    elim started [ ok _ ↦ pure (ok tt) | err e ↦ m.cancel context >> pure (wrap_osv (err e)) ]

  -- The loop over the side processes.
  unfoldable pub start_processes : ℕ → List (List Text) → M W (Ret (Unit {0}))
  start_processes context [] = pure (ok tt)
  start_processes context (p ∷ ps) =
      start_process context p >>= λ r. or_return r λ _. start_processes context ps

  -- The status becomes Running, and a routine waits for the end of the virtual machine.
  unfoldable pub watch_read : Instance → ℕ → ℕ → ℕ → VmStatus → M (Osv W) (Ret (Unit {0}))
  watch_read i context logs_file a status = on_machine m.now >>= λ now.
      modify (λ t. record t {
        memory = set t.memory a (record status { state = running now });
        watchers =
            record { status = a; context = context; logs_file = logs_file; id = i.id } ∷ t.watchers;
      })
      >> pure (ok tt)

  -- A status that is not there is dereferenced.
  unfoldable pub watch_status : Instance → ℕ → ℕ → Option ℕ → M (Osv W) (Ret (Unit {0}))
  watch_status i context logs_file none = crash
  watch_status i context logs_file (some a) =
      deref (some a) >>= λ status. watch_read i context logs_file a status

  unfoldable pub watch : Instance → ℕ → ℕ → M (Osv W) (Ret (Unit {0}))
  watch i context logs_file = do
    s ← get
    watch_status i context logs_file (lookup i.id s.instance_statuses)

  -- The side processes, the file of logs and the command of the virtual machine.
  unfoldable pub launch : Instance → OsvExtras → ℕ → M (Osv W) (Ret (Unit {0}))
  launch i extras command = do
    context ← on_machine m.with_cancel
    started ← on_machine (start_processes context extras.vm_proc)
    or_return started λ _. (do
      file ← on_machine (m.create_file (instance_logs_path m i))
      or_return (wrap_osv file) λ logs_file. (do
        running_now ← on_machine (m.start_command command)
        or_return (wrap_osv running_now) λ _. watch i context logs_file))

  -- The command of the virtual machine.
  unfoldable pub vm_command : Text → OsvExtras → M W (Ret ℕ)
  vm_command name extras = do
    conf ← m.load_config name
    or_return (wrap_osv conf)
        λ c. (do command ← m.vm_command c extras.vm_args; pure (wrap_osv command))

  -- The switch over the platform.
  unfoldable pub start_with : Instance → Text → Text → OsvExtras → M (Osv W) (Ret (Unit {0}))
  start_with i name platform extras =
      if platform == qemu
      then (do
        command ← on_machine (vm_command name extras)
        or_return command λ c. launch i extras c)
      else pure no_platform

  -- `StartInstance`, once the instance is found.
  unfoldable pub start_found :
      Instance → Text → Text → Option OsvExtras → M (Osv W) (Ret (Unit {0}))
  start_found i name platform none = pure (osv_error (codes "instance does not have extras"))
  start_found i name platform (some extras) = start_with i name platform extras

  -- `StartInstance`, on what `SearchInstance` found.
  unfoldable pub start_there : Instance → Text × Text → M (Osv W) (Ret (Unit {0}))
  start_there i (name, platform) =
      if name == []
      then pure no_instance
      else (do s ← get; start_found i name platform (lookup i.id s.instance_extras))

  -- `StartInstance`
  unfoldable pub start_instance : Instance → M (Osv W) (Ret (Unit {0}))
  start_instance i = do there ← on_machine (m.search_instance i.id); start_there i there

  -- `instanceStatus.State.Running.StartedAt`, of a pointer that is nil in any other state.
  unfoldable pub started_at : VmState → M (Osv W) ℕ
  started_at (running t) = pure t
  started_at _ = crash

  -- The status becomes Terminated.
  unfoldable pub terminate : Watcher → ℕ → Text → VmStatus → ℕ → M (Osv W) (Unit {0})
  terminate watcher code msg status time = do
    now ← on_machine m.now
    modify λ s. record s {
      memory = set s.memory watcher.status (record status { state = terminated code msg time now });
    }

  -- The routine of a watcher, once the virtual machine has ended with an exit code and a message.
  unfoldable pub exit : Watcher → ℕ → Text → M (Osv W) (Unit {0})
  exit watcher code msg = do
    ctx ← on_machine (m.cancel watcher.context)
    closed ← on_machine (m.close_file watcher.logs_file)
    status ← deref (some watcher.status)
    time ← started_at status.state
    terminate watcher code msg status time

  -- The routine of a watcher, on what `Wait` returned.
  unfoldable pub waited : Watcher → WaitResult → M (Osv W) (Unit {0})
  waited watcher result = let parsed = exec_parse_error result in exit watcher parsed.0 parsed.1
