-- ===== src/Provider/Osv/Boots/Assembly.antt =====
-- The end of CreateInstance of pkg/provider/backend_osv.go, for an instance without volumes, on a
-- machine that answers.
use feather_multiruntimenetw.Common.{
  List, [], ◌∷◌, ◌++◌, ◌≡◌, refl, sym, subst, Text, text_eq, nat_eq, Ret, ok, err, Returns, ◌>>=◌,
  pure, or_return, if◌then◌else◌,
}
use feather_multiruntimenetw.Common.Dict.{insert, lookup-insert_self}
use feather_multiruntimenetw.Provider.Spec.{Instance, InstanceVolumeMount, pull_other}
use feather_multiruntimenetw.Provider.Osv.{Machine, Osv, OsvExtras, VmConfig, wrap_osv, on_machine}
use feather_multiruntimenetw.Provider.Osv.Core.{core}
use feather_multiruntimenetw.Provider.Osv.Paths.{instance_dir, image_disk_path}
use feather_multiruntimenetw.Provider.Osv.Mounts.{all_extras}
use feather_multiruntimenetw.Provider.Osv.Images.{pull_instance_image}
use feather_multiruntimenetw.Provider.Osv.Stop.{qemu}
use feather_multiruntimenetw.Provider.Osv.Create.{
  create_prepared, with_hypervisor, ensure_image, assemble, configure, record_status, store_config,
  address_options, nat_rules, first_extras, vm_memory, vm_config, command_line, networking,
  needs_pull,
}
use feather_multiruntimenetw.Provider.Osv.Lifecycle.{Valid}
use feather_multiruntimenetw.Provider.Osv.Answers.{
  Some, IsOk, Answers, ok-Returns, machine-Returns, seq-Returns,
}
use feather_multiruntimenetw.Provider.Osv.Boots.{
  Made, nat_rules-Returns, address_options-Returns, record_status-Made,
}

ok_injective : {A : Type 0} {x y : A} → ok x ≡ ok y → x ≡ y
ok_injective e = cc

module _ {W : Type 0} (m : Machine W) (found : Text → W → Type 0) (a : Answers m found) where
  Stored : Text → Ret (Unit {0}) → W → Type 0
  Stored id r w = (r ≡ ok tt) × found id w

  wrapped-Stored :
      (id : Text) (r : Ret (Unit {0})) (w : W)
      → Stored id r w
      → Returns (Stored id) (pure (wrap_osv r) w)
  unfolding Stored
  wrapped-Stored id (ok u) w q = q
  wrapped-Stored id (err e) w q = cc

  store-Stored :
      (i : Instance) (conf : VmConfig) (w : W)
      → conf.name ≡ i.id
      → Returns (Stored i.id) (store_config m i qemu conf w)
  unfolding store_config Stored
  store-Stored i conf w e =
      seq-Returns IsOk (Stored i.id) (m.mkdir_all (instance_dir m i) w) _
        (a.makes (instance_dir m i) w)
        λ r w' p. ok-Returns (Stored i.id) r _ w' p λ _.
          seq-Returns (Stored conf.name) (Stored i.id) (m.store_config conf w') _ (a.stores conf w')
            λ q w'' h. wrapped-Stored i.id q w'' (h.0, subst (λ n. found n w'') e h.1)

  stored-Made :
      (i : Instance) (r : Ret (Unit {0})) (s : Osv W)
      → r ≡ ok tt
      → Returns (Made m found a i.id) (record_status m i s)
      → Returns (Made m found a i.id) (or_return r (λ _. record_status m i) s)
  stored-Made i (ok u) s e h = h
  stored-Made i (err x) s e h = cc

  configure-Made :
      (i : Instance) (cmd : List Text) (net : Text × Text) (rules : List (Text × Text)) (mac : Text)
      (e : OsvExtras) (s : Osv W)
      → Valid (core s)
      → e.vm_proc ≡ []
      → Returns (Made m found a i.id) (configure m i qemu cmd net rules mac e s)
  unfolding configure vm_config Stored
  configure-Made i cmd net rules mac e s v bare =
      let with_extras : Osv W = record s { instance_extras = insert i.id e s.instance_extras } in
      let conf : VmConfig =
        vm_config m i (image_disk_path m i.container.image qemu) (e.vm_opts ++ cmd) net rules mac in
      machine-Returns (Stored i.id) (Made m found a i.id) (store_config m i qemu conf s.world)
        with_extras _ (store-Stored i conf s.world refl)
        λ r w q.
          stored-Made i r (record with_extras { world = w }) q.0
            (record_status-Made m found a i (record with_extras { world = w }) v
              (record {
                extras = e;
                has = lookup-insert_self i.id e s.instance_extras;
                bare = bare;
                there = q.1;
              }))

  -- Without volumes the extras are the first ones.
  mounts-Made :
      (i : Instance) (address : List Text) (dev : Text) (rules : List (Text × Text)) (mac : Text)
      (mounts : List InstanceVolumeMount) (s : Osv W)
      → mounts ≡ []
      → Valid (core s)
      → Returns (Made m found a i.id) (
          (on_machine (all_extras m i 0 (first_extras (vm_memory i)) mounts) >>= λ extras.
          or_return (wrap_osv extras) λ e.
            configure m i qemu
              (command_line address i)
              (networking dev i.container.ports)
              rules
              mac
              e)
            s)
  unfolding all_extras first_extras
  mounts-Made i address dev rules mac [] s e v =
      configure-Made i _ _ rules mac (first_extras (vm_memory i)) s v refl
  mounts-Made i address dev rules mac (vm ∷ vms) s e v = cc

  assemble-Made :
      (i : Instance) (s : Osv W)
      → i.volume_mounts ≡ []
      → Valid (core s)
      → Returns (Made m found a i.id) (assemble m i qemu s)
  unfolding assemble
  assemble-Made i s no_mounts v =
      machine-Returns Some (Made m found a i.id)
        (m.create_vm_tun i.namespace i.pod_name i.container.name s.world) s _
        (a.tunnels i.namespace i.pod_name i.container.name s.world)
        λ tun w₁ _.
          machine-Returns Some (Made m found a i.id) (address_options m i tun.0 tun.1 w₁)
            (record s { world = w₁ }) _ (address_options-Returns m found a i tun.0 tun.1 w₁)
            λ address w₂ _.
              machine-Returns Some (Made m found a i.id) (nat_rules m i.container.ports w₂)
                (record s { world = w₂ }) _ (nat_rules-Returns m found a i.container.ports w₂)
                λ rules w₃ _.
                  mounts-Made i address tun.0 rules tun.2 i.volume_mounts (record s { world = w₃ })
                    no_mounts v

  image-IsOk :
      (i : Instance) (w : W)
      → i.container.image_pull_policy ≡ pull_other
      → Returns IsOk (ensure_image m i qemu w)
  unfolding ensure_image
  image-IsOk i w no_pull = seq-Returns Some IsOk (m.exists _ w) _ (a.looks _ w) λ there w' _.
      subst
        (λ p. Returns IsOk (
          (if needs_pull there p
              then pull_instance_image m i.container.image qemu
              else pure (ok tt))
            w'))
        (sym no_pull) (tt, refl)

  hypervisor-Made :
      (i : Instance) (r : Ret Text) (s : Osv W)
      → r ≡ ok qemu
      → i.container.image_pull_policy ≡ pull_other
      → i.volume_mounts ≡ []
      → Valid (core s)
      → Returns (Made m found a i.id) (with_hypervisor m i r s)
  unfolding with_hypervisor
  hypervisor-Made i (err x) s e no_pull no_mounts v = cc
  hypervisor-Made i (ok hypervisor) s e no_pull no_mounts v =
      let q : hypervisor ≡ qemu = ok_injective e in
      subst (λ h. Returns (Made m found a i.id) (with_hypervisor m i (ok h) s)) (sym q)
        (machine-Returns IsOk (Made m found a i.id) (ensure_image m i qemu s.world) s _
          (image-IsOk i s.world no_pull)
          λ p w o.
            ok-Returns (Made m found a i.id) p _ (record s { world = w }) o
              λ _. assemble-Made i (record s { world = w }) no_mounts v)

  pub prepared-Made :
      (i : Instance) (s : Osv W)
      → i.container.image_pull_policy ≡ pull_other
      → i.volume_mounts ≡ []
      → Valid (core s)
      → Returns (Made m found a i.id) (create_prepared m i s)
  unfolding create_prepared
  prepared-Made i s no_pull no_mounts v =
      machine-Returns (λ r w. r ≡ ok qemu) (Made m found a i.id)
        (m.image_hypervisor i.container.image s.world) s _ (a.is_qemu i.container.image s.world)
        λ r w e. hypervisor-Made i r (record s { world = w }) e no_pull no_mounts v
