-- ===== src/Provider/Osv/Stop.antt =====
-- GetInstanceStatus, KillInstance, DeleteInstance, GetInstanceLogs and RunInInstance of
-- pkg/provider/backend_osv.go.
use feather_multiruntimenetw.Common.{
  ℕ, List, [], Option, none, some, Text, text_eq, nat_eq, codes, M, Ret, ok, ◌>>=◌, ◌>>◌, pure,
  crash, get, modify, or_return, ◌==◌, if◌then◌else◌, get_elem?,
}
use feather_multiruntimenetw.Common.Dict.{lookup, erase}
use feather_multiruntimenetw.Provider.Spec.{Instance}
use feather_multiruntimenetw.Provider.Osv.{Machine, Osv, VmStatus, on_machine, wrap_osv, osv_error}
use feather_multiruntimenetw.Provider.Osv.Paths.{instance_logs_path}

abbrev pub pointee : {W : Type 0} → Option VmStatus → M (Osv W) VmStatus
pointee none = crash
pointee (some status) = pure status

-- The status under an address; a pointer that is nil, or to no status, is dereferenced.
unfoldable pub deref : {W : Type 0} → Option ℕ → M (Osv W) VmStatus
deref none = crash
deref (some a) = do s ← get; pointee (get_elem? s.memory a)

unfoldable pub status_at : {W : Type 0} → Instance → Option ℕ → M (Osv W) (Ret VmStatus)
status_at i none = pure (osv_error (codes "instance does not exist"))
status_at i (some a) = deref (some a) >>= λ status. pure (ok status)

-- `GetInstanceStatus`
unfoldable pub get_instance_status : {W : Type 0} → Instance → M (Osv W) (Ret VmStatus)
get_instance_status i = do s ← get; status_at i (lookup i.id s.instance_statuses)

abbrev pub no_instance : {A : Type 0} → Ret A
no_instance = osv_error (codes "instance does not exist")

abbrev pub no_platform : {A : Type 0} → Ret A
no_platform = osv_error (codes "platform is not supported")

abbrev pub qemu : Text
qemu = codes "qemu"

-- The tests on what `SearchInstance` found: a name, and the platform.
unfoldable pub on_platform :
    {W : Type 0} → Text × Text → M (Osv W) (Ret (Unit {0})) → M (Osv W) (Ret (Unit {0}))
on_platform (name, platform) act =
    if name == [] then pure no_instance else if platform == qemu then act else pure no_platform

module _ {W : Type 0} (m : Machine W) where
  -- `KillInstance`
  unfoldable pub kill_instance : Instance → M (Osv W) (Ret (Unit {0}))
  kill_instance i = do
    there ← on_machine (m.search_instance i.id)
    on_platform there (do stopped ← on_machine (m.stop_vm i.id); pure (wrap_osv stopped))

  -- The end of `DeleteInstance`, on what `qemu.DeleteVM` returned.
  unfoldable pub forget_status : Instance → Ret (Unit {0}) → M (Osv W) (Ret (Unit {0}))
  forget_status i deleted = or_return (wrap_osv deleted) λ _.
      modify (λ s. record s { instance_statuses = erase i.id s.instance_statuses }) >> pure (ok tt)

  -- `DeleteInstance`
  unfoldable pub delete_instance : Instance → M (Osv W) (Ret (Unit {0}))
  delete_instance i = do
    there ← on_machine (m.search_instance i.id)
    on_platform there (do
      stopped ← on_machine (m.stop_vm i.id)
      deleted ← on_machine (m.delete_vm i.id)
      forget_status i deleted)

  -- `GetInstanceLogs`
  unfoldable pub get_instance_logs : Instance → M (Osv W) (Ret ℕ)
  get_instance_logs i = do
    logger ← on_machine (m.new_container_logger (instance_logs_path m i))
    pure (wrap_osv logger)

  -- `RunInInstance`
  unfoldable pub run_in_instance : Instance → List Text → M (Osv W) (Ret (Unit {0}))
  run_in_instance i cmd = pure (ok tt)
