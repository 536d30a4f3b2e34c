-- ===== src/Provider/Osv/Starts.antt =====
-- CreateInstance followed by StartInstance, of pkg/provider/backend_osv.go, for an instance without
-- volumes, on a machine that answers.
use feather_multiruntimenetw.Common.{
  ℕ, List, [], ◌∷◌, ◌≡◌, refl, sym, subst, ◌≢◌, some, Text, text_eq, Ret, ok, err, Outcome, Returns,
  ◌>>=◌, ◌>>◌, get_elem?, length, beq_ne, done, panic, stuck,
}
use feather_multiruntimenetw.Common.Cells.{get_elem?-append_last}
use feather_multiruntimenetw.Common.Dict.{lookup, lookup-insert_self}
use feather_multiruntimenetw.Provider.Spec.{Instance, pull_other}
use feather_multiruntimenetw.Provider.Osv.{Machine, Osv, OsvExtras, VmStatus}
use feather_multiruntimenetw.Provider.Osv.Core.{Core, core}
use feather_multiruntimenetw.Provider.Osv.Paths.{instance_logs_path}
use feather_multiruntimenetw.Provider.Osv.Stop.{delete_instance, deref, pointee, qemu}
use feather_multiruntimenetw.Provider.Osv.Start.{
  start_instance, start_there, start_found, start_with, launch, watch, watch_status, watch_read,
  start_processes, vm_command,
}
use feather_multiruntimenetw.Provider.Osv.Create.{create_instance}
use feather_multiruntimenetw.Provider.Osv.Changes.{
  erases, Deleted, Created, Started, delete_instance-Deleted,
}
use feather_multiruntimenetw.Provider.Osv.Lifecycle.{started, phase, Valid}
use feather_multiruntimenetw.Provider.Osv.Moves.{phase-Began}
use feather_multiruntimenetw.Provider.Osv.Steps.{Deleted-Valid}
use feather_multiruntimenetw.Provider.Osv.Answers.{
  Some, IsOk, Answers, ok-Returns, plain_ok-Returns, passed_on-IsOk, machine-Returns, seq-Returns,
  both-Returns,
}
use feather_multiruntimenetw.Provider.Osv.Boots.{Ready, Made, delete-Returns}
use feather_multiruntimenetw.Provider.Osv.Changes.Creates.{create_instance-Created}
use feather_multiruntimenetw.Provider.Osv.Changes.Starts.{start_instance-Started}
use feather_multiruntimenetw.Provider.Osv.Boots.Assembly.{prepared-Made}

-- An instance has a status.
pub record Known (c : Core) (id : Text) : Type 0 where
  pub address : ℕ
  pub status : VmStatus
  pub has : lookup id c.instance_statuses ≡ some address
  pub stands : get_elem? c.memory address ≡ some status

Created-Known :
    (id : Text) (c d : Core) (r : Ret (Unit {0})) → r ≡ ok tt → Created id c r d → Known d id
Created-Known id c d (err e) p made = cc
Created-Known id c d (ok u) p made =
    subst (λ x. Known x id) (sym made.left)
      (record {
        address = length (erases id made.times c).memory;
        status = made.status;
        has =
            lookup-insert_self id (length (erases id made.times c).memory)
              (erases id made.times c).instance_statuses;
        stands = get_elem?-append_last (erases id made.times c).memory made.status;
      })

started-phase :
    (id : Text) (c d : Core) (r : Ret (Unit {0}))
    → r ≡ ok tt
    → Started id c r d
    → phase d id ≡ started
started-phase id c d (err e) p b = cc
started-phase id c d (ok u) p b = phase-Began id c d b

module _ {W : Type 0} (m : Machine W) (found : Text → W → Type 0) (a : Answers m found) where
  create-Made :
      (i : Instance) (s : Osv W)
      → i.container.image_pull_policy ≡ pull_other
      → i.volume_mounts ≡ []
      → Valid (core s)
      → Returns (Made m found a i.id) (create_instance m i s)
  unfolding create_instance
  create-Made i s no_pull no_mounts v =
      seq-Returns (λ r t. Some r t × Deleted i.id (core s) r (core t)) (Made m found a i.id)
        (delete_instance m i s) _
        (both-Returns Some (λ r t. Deleted i.id (core s) r (core t)) (delete_instance m i s)
          (delete-Returns m found a i s) ((delete_instance-Deleted m i (core s)).at s refl))
        λ r t q.
          prepared-Made m found a i t no_pull no_mounts
            (Deleted-Valid m i.id (core s) (core t) r v q.1)

  Ran : Ret (Unit {0}) → Osv W → Type 0
  Ran r t = r ≡ ok tt

  read-Ran :
      (i : Instance) (context logs_file address : ℕ) (status : VmStatus) (s : Osv W)
      → Returns Ran (watch_read m i context logs_file address status s)
  unfolding watch_read Ran
  read-Ran i context logs_file address status s =
      machine-Returns Some Ran (m.now s.world) s _ (a.tells s.world) λ now w _. refl

  no_processes :
      (context : ℕ) (procs : List (List Text)) (w : W)
      → procs ≡ []
      → Returns IsOk (start_processes m context procs w)
  unfolding start_processes
  no_processes context [] w e = (tt, refl)
  no_processes context (p ∷ ps) w e = cc

  watched-Ran :
      (i : Instance) (context logs_file : ℕ) (s : Osv W) (k : Known (core s) i.id)
      → Returns Ran (watch_status m i context logs_file (some k.address) s)
  unfolding watch_status deref Ran
  watched-Ran i context logs_file s k =
      subst
        (λ x.
          Returns Ran
            ((pointee x >>= λ status. watch_read m i context logs_file k.address status) s))
        (sym k.stands) (read-Ran i context logs_file k.address k.status s)

  launch-Ran :
      (i : Instance) (extras : OsvExtras) (command : ℕ) (s : Osv W)
      → extras.vm_proc ≡ []
      → Known (core s) i.id
      → Returns Ran (launch m i extras command s)
  unfolding launch Ran watch
  launch-Ran i extras command s bare k =
      machine-Returns Some Ran (m.with_cancel s.world) s _ (a.contexts s.world) λ context w _.
        machine-Returns IsOk Ran (start_processes m context extras.vm_proc w)
          (record s { world = w }) _ (no_processes context extras.vm_proc w bare)
          λ r w₁ p.
            plain_ok-Returns Ran r _ (record s { world = w₁ }) p
              λ _.
                machine-Returns IsOk Ran (m.create_file (instance_logs_path m i) w₁)
                  (record s { world = w₁ }) _ (a.files (instance_logs_path m i) w₁)
                  λ file w₂ o.
                    ok-Returns Ran file _ (record s { world = w₂ }) o
                      λ logs_file.
                        machine-Returns IsOk Ran (m.start_command command w₂)
                          (record s { world = w₂ }) _ (a.runs command w₂)
                          λ now_runs w₃ o₃.
                            ok-Returns Ran now_runs _ (record s { world = w₃ }) o₃
                              λ _.
                                subst
                                  (λ x. Returns Ran (
                                    watch_status m i context logs_file x (record s { world = w₃ })))
                                  (sym k.has)
                                  (watched-Ran i context logs_file (record s { world = w₃ })
                                    (record {
                                      address = k.address;
                                      status = k.status;
                                      has = k.has;
                                      stands = k.stands;
                                    }))

  command-IsOk :
      (name : Text) (extras : OsvExtras) (w : W) → Returns IsOk (vm_command m name extras w)
  unfolding vm_command
  command-IsOk name extras w =
      seq-Returns IsOk IsOk (m.load_config name w) _ (a.loads name w) λ conf w₁ p.
        ok-Returns IsOk conf _ w₁ p λ c.
          seq-Returns IsOk IsOk (m.vm_command c extras.vm_args w₁) _
            (a.commands c extras.vm_args w₁) λ r w₂ o. passed_on-IsOk r w₂ o

  there-Ran :
      (i : Instance) (s : Osv W) (extras : OsvExtras)
      → i.id ≢ []
      → lookup i.id s.instance_extras ≡ some extras
      → extras.vm_proc ≡ []
      → Known (core s) i.id
      → Returns Ran (start_there m i (i.id, qemu) s)
  unfolding start_there start_found start_with
  there-Ran i s extras named has bare k =
      rw (beq_ne i.id [] named, start_there)
        (subst (λ x. Returns Ran (start_found m i i.id qemu x s)) (sym has)
          (machine-Returns IsOk Ran (vm_command m i.id extras s.world) s _
            (command-IsOk i.id extras s.world)
            λ r w o.
              plain_ok-Returns Ran r _ (record s { world = w }) o
                λ c.
                  launch-Ran i extras c (record s { world = w }) bare
                    (record {
                      address = k.address;
                      status = k.status;
                      has = k.has;
                      stands = k.stands;
                    })))

  start-Ran :
      (i : Instance) (s : Osv W)
      → i.id ≢ []
      → Ready found i.id s
      → Known (core s) i.id
      → Returns Ran (start_instance m i s)
  unfolding start_instance
  start-Ran i s named r k =
      machine-Returns (λ p w. p ≡ (i.id, qemu)) Ran (m.search_instance i.id s.world) s _
        (a.finds i.id s.world r.there)
        λ there w e.
          subst (λ p. Returns Ran (start_there m i p (record s { world = w }))) (sym e)
            (there-Ran i (record s { world = w }) r.extras named r.has r.bare
              (record { address = k.address; status = k.status; has = k.has; stands = k.stands }))

  Ran-started :
      (id : Text) (c : Core) (o : Outcome (Ret (Unit {0}) × Osv W))
      → Returns (λ r u. Ran r u × Started id c r (core u)) o
      → Returns (λ r u. (r ≡ ok tt) × (phase (core u) id ≡ started)) o
  unfolding Ran
  Ran-started id c (done (r, u)) q = (q.0, started-phase id c (core u) r q.0 q.1)
  Ran-started id c panic q = q
  Ran-started id c stuck q = q

  -- On a machine that answers, an instance with a name and without volumes, whose image is not to
  -- be pulled, is made and started from every valid state of the backend: the two calls return
  -- without an error, and the instance then runs.
  pub create-start-runs :
      (i : Instance) (s : Osv W)
      → i.id ≢ []
      → i.container.image_pull_policy ≡ pull_other
      → i.volume_mounts ≡ []
      → Valid (core s)
      → Returns
          (λ r t. (r ≡ ok tt) × (phase (core t) i.id ≡ started))
          ((create_instance m i >> start_instance m i) s)
  create-start-runs i s named no_pull no_mounts v =
      seq-Returns (λ r t. Made m found a i.id r t × Created i.id (core s) r (core t))
        (λ r t. (r ≡ ok tt) × (phase (core t) i.id ≡ started)) (create_instance m i s)
        (λ _. start_instance m i)
        (both-Returns (Made m found a i.id) (λ r t. Created i.id (core s) r (core t))
          (create_instance m i s) (create-Made i s no_pull no_mounts v)
          ((create_instance-Created m i (core s)).at s refl))
        λ r t q.
          let known : Known (core t) i.id = Created-Known i.id (core s) (core t) r q.0.0 q.1 in
          Ran-started i.id (core t) (start_instance m i t) (
            both-Returns Ran (λ r' u. Started i.id (core t) r' (core u)) (start_instance m i t)
              (start-Ran i t named q.0.1 known) ((start_instance-Started m i (core t)).at t refl))
