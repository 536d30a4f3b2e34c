-- ===== src/Provider/Osv/Changes.antt =====
-- What the calls of OSvBackend, in pkg/provider/backend_osv.go, do to the statuses, their memory
-- and the routines that wait.
pub mod Creates
pub mod Starts
use feather_multiruntimenetw.Common.{
  ℕ, zero, suc, List, [], ◌∷◌, ◌++◌, ◌≡◌, refl, ap, sym, subst, Option, none, some, Text, text_eq,
  M, Ret, ok, err, Error, pure, or_return, get_elem?, set, length, Bool-cases, inl, inr, ◌==◌,
}
use feather_multiruntimenetw.Common.Dict.{lookup, insert, erase}
use feather_multiruntimenetw.Provider.Spec.{Instance}
use feather_multiruntimenetw.Provider.Osv.{
  Machine, Osv, OsvExtras, VmState, waiting, running, VmStatus, Watcher, wrap_osv,
}
use feather_multiruntimenetw.Provider.Osv.Core.{
  Core, From, From-pure, From-crash, From-machine, From-seq, From-get, From-modify, From-or_return,
  From-deref,
}
use feather_multiruntimenetw.Provider.Osv.Stop.{
  kill_instance, delete_instance, forget_status, on_platform, qemu,
}
use feather_multiruntimenetw.Provider.Osv.Start.{
  start_instance, start_there, start_found, start_with, launch, watch, watch_status, watch_read,
  start_processes, vm_command,
}
use feather_multiruntimenetw.Provider.Osv.Paths.{instance_logs_path}
use feather_multiruntimenetw.Provider.Osv.Mounts.{all_extras}
use feather_multiruntimenetw.Provider.Osv.Create.{
  create_instance, create_prepared, with_hypervisor, ensure_image, assemble, configure,
  record_status, put_status, last_state, update_instance, store_config, address_options, nat_rules,
  first_extras, vm_memory,
}

abbrev pub erases : Text → ℕ → Core → Core
erases id zero c = c
erases id (suc n) c =
    let d = erases id n c in record d { instance_statuses = erase id d.instance_statuses }

abbrev pub add_status : Text → VmStatus → Core → Core
add_status id status c = record c {
  instance_statuses = insert id (length c.memory) c.instance_statuses;
  memory = c.memory ++ status ∷ [];
}

abbrev pub begin : ℕ → VmStatus → ℕ → Watcher → Core → Core
begin a status now w c = record c {
  memory = set c.memory a (record status { state = running now });
  watchers = w ∷ c.watchers;
}

-- The status of an instance was removed, once or more or not at all.
pub record Removed (id : Text) (c d : Core) : Type 0 where
  pub times : ℕ
  pub left : d ≡ erases id times c

-- A new status, which waits, was given to an instance.
pub record Made (id : Text) (c d : Core) : Type 0 where
  pub times : ℕ
  pub status : VmStatus
  pub waits : status.state ≡ waiting
  pub left : d ≡ add_status id status (erases id times c)

-- The status of an instance was set to Running, and a routine waits for its end.
pub record Began (id : Text) (c d : Core) : Type 0 where
  pub address : ℕ
  pub status : VmStatus
  pub now : ℕ
  pub watcher : Watcher
  pub found : lookup id c.instance_statuses ≡ some address
  pub stands : get_elem? c.memory address ≡ some status
  pub waits_at : watcher.status ≡ address
  pub waits_for : watcher.id ≡ id
  pub left : d ≡ begin address status now watcher c

abbrev pub Deleted : Text → Core → Ret (Unit {0}) → Core → Type 0
Deleted id c (ok _) d = d ≡ erases id 1 c
Deleted id c (err _) d = d ≡ c

abbrev pub Created : Text → Core → Ret (Unit {0}) → Core → Type 0
Created id c (ok _) d = Made id c d
Created id c (err _) d = Removed id c d

abbrev pub Started : Text → Core → Ret (Unit {0}) → Core → Type 0
Started id c (ok _) d = Began id c d
Started id c (err _) d = d ≡ c

module _ {W : Type 0} (m : Machine W) where
  platform-From :
      {c : Core} (P : Ret (Unit {0}) → Core → Type 0) (there : Text × Text)
      (act : M (Osv W) (Ret (Unit {0})))
      → ((e : Error) → P (err e) c)
      → From c P act
      → From c P (on_platform there act)
  unfolding on_platform
  platform-From P (name, platform) act p h = elim (Bool-cases (name == [])) [
    | inl empty ↦ rw (empty, on_platform) (From-pure _ (p _))
    | inr named ↦ elim (Bool-cases (platform == qemu)) [
      | inl is_qemu ↦ rw (named, is_qemu, on_platform) h
      | inr other ↦ rw (named, other, on_platform) (From-pure _ (p _))
    ]
  ]

  forget_status-From :
      (i : Instance) (c : Core) (deleted : Ret (Unit {0}))
      → From c (Deleted i.id c) (forget_status m i deleted)
  unfolding forget_status
  forget_status-From i c deleted =
      From-or_return (wrap_osv deleted) (λ e. refl)
        λ _. From-modify (erases i.id 1 c) _ (λ s e. ap (erases i.id 1) e) (From-pure (ok tt) refl)

  pub delete_instance-Deleted :
      (i : Instance) (c : Core) → From c (Deleted i.id c) (delete_instance m i)
  unfolding delete_instance
  delete_instance-Deleted i c = From-machine (m.search_instance i.id) λ there.
      platform-From (Deleted i.id c) there _ (λ e. refl)
        (From-machine (m.stop_vm i.id)
          λ _. From-machine (m.delete_vm i.id) λ deleted. forget_status-From i c deleted)

  wrapped-From : (c : Core) (r : Ret (Unit {0})) → From {W = W} c (λ _ d. d ≡ c) (pure (wrap_osv r))
  wrapped-From c (ok _) = From-pure _ refl
  wrapped-From c (err e) = From-pure _ refl

  pub kill_instance-From : (i : Instance) (c : Core) → From c (λ _ d. d ≡ c) (kill_instance m i)
  unfolding kill_instance
  kill_instance-From i c = From-machine (m.search_instance i.id) λ there.
      platform-From (λ _ d. d ≡ c) there _ (λ e. refl)
        (From-machine (m.stop_vm i.id) λ r. wrapped-From c r)
