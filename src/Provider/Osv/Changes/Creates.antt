-- ===== src/Provider/Osv/Changes/Creates.antt =====
-- What CreateInstance and UpdateInstance of pkg/provider/backend_osv.go do to the statuses.
use feather_multiruntimenetw.Common.{
  ℕ, suc, List, ◌≡◌, refl, ap, sym, subst, Option, none, some, Text, text_eq, M, Ret, ok, err,
  or_return,
}
use feather_multiruntimenetw.Common.Dict.{lookup}
use feather_multiruntimenetw.Provider.Spec.{Instance}
use feather_multiruntimenetw.Provider.Osv.{Machine, Osv, OsvExtras, VmState, wrap_osv}
use feather_multiruntimenetw.Provider.Osv.Core.{
  Core, From, From-pure, From-machine, From-seq, From-get, From-modify, From-or_return, From-deref,
}
use feather_multiruntimenetw.Provider.Osv.Mounts.{all_extras}
use feather_multiruntimenetw.Provider.Osv.Create.{
  create_instance, create_prepared, with_hypervisor, ensure_image, assemble, configure,
  record_status, put_status, last_state, update_instance, store_config, address_options, nat_rules,
  first_extras, vm_memory,
}
use feather_multiruntimenetw.Provider.Osv.Changes.{
  erases, add_status, Deleted, Created, delete_instance-Deleted,
}

module _ {W : Type 0} (m : Machine W) where
  last_state-From : (c : Core) (a : Option ℕ) → From {W = W} c (λ _ d. d ≡ c) (last_state m a)
  unfolding last_state
  last_state-From c none = From-pure _ refl
  last_state-From c (some a) = From-deref a λ status there. From-pure _ refl

  put_status-From :
      (i : Instance) (last : VmState) (c : Core) (n : ℕ)
      → From (erases i.id n c) (Created i.id c) (put_status m i last)
  unfolding put_status
  put_status-From i last c n =
      From-modify (add_status i.id _ (erases i.id n c)) _ (λ t e. ap (add_status i.id _) e)
        (From-pure (ok tt) (record { times = n; status = _; waits = refl; left = refl }))

  -- The end of a creation, from what a deletion left.
  record_status-From :
      (i : Instance) (c : Core) (n : ℕ)
      → From (erases i.id n c) (Created i.id c) (record_status m i)
  unfolding record_status
  record_status-From i c n = From-get λ s e.
      From-seq (λ _ d. d ≡ erases i.id n c) (last_state-From _ (lookup i.id s.instance_statuses))
        λ last d same.
          subst (λ d. From d (Created i.id c) (put_status m i last)) (sym same)
            (put_status-From i last c n)

  removed-From :
      {A : Type 0} (id : Text) (c : Core) (n : ℕ) (r : Ret A) (f : A → M (Osv W) (Ret (Unit {0})))
      → ((a : A) → From (erases id n c) (Created id c) (f a))
      → From (erases id n c) (Created id c) (or_return r f)
  removed-From id c n r f = From-or_return r λ e. record { times = n; left = refl }

  configure-From :
      (i : Instance) (hypervisor : Text) (cmd : List Text) (net : Text × Text)
      (rules : List (Text × Text)) (mac : Text) (extras : OsvExtras) (c : Core) (n : ℕ)
      → From (erases i.id n c) (Created i.id c) (configure m i hypervisor cmd net rules mac extras)
  unfolding configure
  configure-From i hypervisor cmd net rules mac extras c n =
      From-modify (erases i.id n c) _ (λ s e. e)
        (From-machine (store_config m i hypervisor _)
          λ stored. removed-From i.id c n stored _ λ _. record_status-From i c n)

  assemble-From :
      (i : Instance) (hypervisor : Text) (c : Core) (n : ℕ)
      → From (erases i.id n c) (Created i.id c) (assemble m i hypervisor)
  unfolding assemble
  assemble-From i hypervisor c n =
      From-machine (m.create_vm_tun i.namespace i.pod_name i.container.name) λ tun.
        From-machine (address_options m i tun.0 tun.1) λ address.
          From-machine (nat_rules m i.container.ports) λ rules.
            From-machine (all_extras m i 0 (first_extras (vm_memory i)) i.volume_mounts) λ extras.
              removed-From i.id c n (wrap_osv extras) _
                λ e. configure-From i hypervisor _ _ rules _ e c n

  -- A creation, from what deletions before it left.
  prepare-Created :
      (i : Instance) (c : Core) (n : ℕ)
      → From (erases i.id n c) (Created i.id c) (create_prepared m i)
  unfolding create_prepared with_hypervisor
  prepare-Created i c n = From-machine (m.image_hypervisor i.container.image) λ conf.
      removed-From i.id c n (wrap_osv conf) _ λ hypervisor.
        From-machine (ensure_image m i hypervisor)
          λ pulled. removed-From i.id c n (wrap_osv pulled) _ λ _. assemble-From i hypervisor c n

  Deleted-From :
      (i : Instance) (c : Core) (n : ℕ) (r : Ret (Unit {0})) (d : Core)
      → Deleted i.id (erases i.id n c) r d
      → From d (Created i.id c) (create_prepared m i)
  Deleted-From i c n (ok _) d q =
      subst (λ d'. From d' (Created i.id c) (create_prepared m i)) (sym q)
        (prepare-Created i c (suc n))
  Deleted-From i c n (err e) d q =
      subst (λ d'. From d' (Created i.id c) (create_prepared m i)) (sym q) (prepare-Created i c n)

  create_after :
      (i : Instance) (c : Core) (n : ℕ)
      → From (erases i.id n c) (Created i.id c) (create_instance m i)
  unfolding create_instance
  create_after i c n =
      From-seq (Deleted i.id (erases i.id n c)) (delete_instance-Deleted m i (erases i.id n c))
        λ r d q. Deleted-From i c n r d q

  pub create_instance-Created :
      (i : Instance) (c : Core) → From c (Created i.id c) (create_instance m i)
  create_instance-Created i c = create_after i c 0

  update-From :
      (i : Instance) (c : Core) (r : Ret (Unit {0})) (d : Core)
      → Deleted i.id c r d
      → From d (Created i.id c) (or_return r λ _. create_instance m i)
  update-From i c (ok _) d q =
      subst (λ d'. From d' (Created i.id c) (create_instance m i)) (sym q) (create_after i c 1)
  update-From i c (err e) d q = From-pure (err e) (record { times = 0; left = q })

  pub update_instance-Created :
      (i : Instance) (c : Core) → From c (Created i.id c) (update_instance m i)
  unfolding update_instance
  update_instance-Created i c =
      From-seq (Deleted i.id c) (delete_instance-Deleted m i c) λ r d q. update-From i c r d q
