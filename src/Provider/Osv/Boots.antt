-- ===== src/Provider/Osv/Boots.antt =====
-- A virtual machine without volumes that is made and started by OSvBackend of
-- pkg/provider/backend_osv.go, on a machine that answers.
pub mod Assembly
use feather_multiruntimenetw.Common.{
  ℕ, ◌<◌, List, [], ◌∷◌, ◌++◌, ◌≡◌, refl, sym, subst, Option, none, some, Text, text_eq, nat_eq, M,
  Ret, ok, err, done, Returns, ◌>>=◌, pure, or_return, if◌then◌else◌, get_elem?, length, Bool-cases,
  inl, inr, ◌==◌, Option-cases,
}
use feather_multiruntimenetw.Common.Cells.{get_elem?-none_below}
use feather_multiruntimenetw.Common.Dict.{lookup, insert, lookup-insert_self}
use feather_multiruntimenetw.Provider.Spec.{
  Instance, InstanceVolumeMount, ContainerPort, pull_other,
}
use feather_multiruntimenetw.Provider.Osv.{
  Machine, Osv, OsvExtras, VmState, VmConfig, wrap_osv, on_machine,
}
use feather_multiruntimenetw.Provider.Osv.Core.{core}
use feather_multiruntimenetw.Provider.Osv.Paths.{instance_dir, image_disk_path}
use feather_multiruntimenetw.Provider.Osv.Mounts.{all_extras}
use feather_multiruntimenetw.Provider.Osv.Images.{pull_instance_image}
use feather_multiruntimenetw.Provider.Osv.Stop.{
  delete_instance, forget_status, on_platform, deref, pointee, qemu,
}
use feather_multiruntimenetw.Provider.Osv.Create.{
  create_prepared, with_hypervisor, ensure_image, assemble, configure, record_status, put_status,
  last_state, store_config, address_options, nat_rules, free_rule, first_extras, vm_memory,
  vm_config, command_line, networking, needs_pull,
}
use feather_multiruntimenetw.Provider.Osv.Lifecycle.{Valid}
use feather_multiruntimenetw.Provider.Osv.Answers.{
  Some, IsOk, Answers, ok-Returns, machine-Returns, seq-Returns,
}

-- The backend has what starting an instance without volumes takes.
pub record Ready {W : Type 0} (found : Text → W → Type 0) (id : Text) (t : Osv W) : Type 0 where
  pub extras : OsvExtras
  pub has : lookup id t.instance_extras ≡ some extras
  pub bare : extras.vm_proc ≡ []
  pub there : found id t.world

module _ {W : Type 0} (m : Machine W) (found : Text → W → Type 0) (a : Answers m found) where
  abbrev pub Made : Text → Ret (Unit {0}) → Osv W → Type 0
  Made id r t = (r ≡ ok tt) × Ready found id t

  by_port :
      (p : ContainerPort) (ports : List ContainerPort) (r : Ret ℕ) (w : W)
      → Returns Some (nat_rules m ports w)
      → Returns Some (free_rule m p (nat_rules m ports) r w)
  unfolding free_rule
  by_port p ports (ok n) w h = seq-Returns Some Some (nat_rules m ports w) _ h λ r w' _. tt
  by_port p ports (err e) w h = h

  nat_rules-Returns : (ports : List ContainerPort) (w : W) → Returns Some (nat_rules m ports w)
  unfolding nat_rules
  nat_rules-Returns [] w = tt
  nat_rules-Returns (p ∷ ports) w = elim (Bool-cases (p.host_port == 0)) [
    | inl zero ↦
        rw (zero, nat_rules)
          (seq-Returns Some Some (m.available_port w) _ (a.ports w)
            λ r w' _. by_port p ports r w' (nat_rules-Returns ports w'))
    | inr given ↦
        rw (given, nat_rules)
          (seq-Returns Some Some (nat_rules m ports w) _ (nat_rules-Returns ports w) λ r w' _. tt)
  ]

  address_options-Returns :
      (i : Instance) (dev ip : Text) (w : W) → Returns Some (address_options m i dev ip w)
  unfolding address_options
  address_options-Returns i [] ip w = tt
  address_options-Returns i (c ∷ dev) ip w =
      seq-Returns Some Some (m.gateway_address i.namespace i.pod_name w) _
        (a.gateways i.namespace i.pod_name w) λ r w' _. tt

  forget-Returns :
      (i : Instance) (r : Ret (Unit {0})) (s : Osv W) → Returns Some (forget_status m i r s)
  unfolding forget_status
  forget-Returns i (ok _) s = tt
  forget-Returns i (err e) s = tt

  platform-Returns :
      (i : Instance) (there : Text × Text) (act : M (Osv W) (Ret (Unit {0}))) (s : Osv W)
      → Returns Some (act s)
      → Returns Some (on_platform there act s)
  unfolding on_platform
  platform-Returns i (name, platform) act s h = elim (Bool-cases (name == [])) [
    | inl empty ↦ rw (empty, on_platform) tt
    | inr named ↦ elim (Bool-cases (platform == qemu)) [
      | inl is_qemu ↦ rw (named, is_qemu, on_platform) h
      | inr other ↦ rw (named, other, on_platform) tt
    ]
  ]

  pub delete-Returns : (i : Instance) (s : Osv W) → Returns Some (delete_instance m i s)
  unfolding delete_instance
  delete-Returns i s =
      machine-Returns Some Some (m.search_instance i.id s.world) s _ (a.searches i.id s.world)
        λ there w _.
          platform-Returns i there _ (record s { world = w })
            (machine-Returns Some Some (m.stop_vm i.id w) (record s { world = w }) _
              (a.stops i.id w)
              λ r w' _.
                machine-Returns Some Some (m.delete_vm i.id w') (record s { world = w' }) _
                  (a.deletes i.id w') λ d w'' _. forget-Returns i d (record s { world = w'' }))

  put-Made :
      (i : Instance) (last : VmState) (s : Osv W)
      → Ready found i.id s
      → Returns (Made i.id) (put_status m i last s)
  unfolding put_status
  put-Made i last s r =
      (refl, record { extras = r.extras; has = r.has; bare = r.bare; there = r.there })

  -- The pointer that is replaced leads to a status.
  last-Made :
      (i : Instance) (s : Osv W) (o : Option ℕ)
      → ((b : ℕ) → o ≡ some b → b < length s.memory)
      → Ready found i.id s
      → Returns (Made i.id) ((last_state m o >>= λ last. put_status m i last) s)
  unfolding last_state deref
  last-Made i s none below r = put-Made i _ s r
  last-Made i s (some b) below r = elim (Option-cases (get_elem? s.memory b)) [
    | inl missing ↦ absurd (get_elem?-none_below s.memory b (below b refl) missing)
    | inr (status, there) ↦
        subst
          (λ x.
            Returns (Made i.id)
              (((pointee x >>= λ st. λ t. done (st.state, t)) >>= λ last. put_status m i last) s))
          (sym there) (put-Made i status.state s r)
  ]

  record_status-Made :
      (i : Instance) (s : Osv W)
      → Valid (core s)
      → Ready found i.id s
      → Returns (Made i.id) (record_status m i s)
  unfolding record_status
  record_status-Made i s v r = last-Made i s (lookup i.id s.instance_statuses) (v.bounded i.id) r
