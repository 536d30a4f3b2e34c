-- ===== src/Provider/Osv/Changes/Starts.antt =====
-- What StartInstance of pkg/provider/backend_osv.go does to the statuses.
use feather_multiruntimenetw.Common.{
  ℕ, [], ◌≡◌, refl, ap, sym, Option, none, some, Text, text_eq, M, Ret, ok, or_return, Bool-cases,
  inl, inr, ◌==◌,
}
use feather_multiruntimenetw.Common.Dict.{lookup}
use feather_multiruntimenetw.Provider.Spec.{Instance}
use feather_multiruntimenetw.Provider.Osv.{Machine, Osv, OsvExtras, wrap_osv}
use feather_multiruntimenetw.Provider.Osv.Core.{
  Core, From, From-pure, From-crash, From-machine, From-get, From-modify, From-or_return,
  From-deref,
}
use feather_multiruntimenetw.Provider.Osv.Stop.{qemu}
use feather_multiruntimenetw.Provider.Osv.Start.{
  start_instance, start_there, start_found, start_with, launch, watch, watch_status, watch_read,
  start_processes, vm_command,
}
use feather_multiruntimenetw.Provider.Osv.Paths.{instance_logs_path}
use feather_multiruntimenetw.Provider.Osv.Changes.{begin, Started}

module _ {W : Type 0} (m : Machine W) where
  watched-From :
      (i : Instance) (context logs_file : ℕ) (c : Core) (a : Option ℕ)
      → lookup i.id c.instance_statuses ≡ a
      → From c (Started i.id c) (watch_status m i context logs_file a)
  unfolding watch_status watch_read
  watched-From i context logs_file c none found = From-crash
  watched-From i context logs_file c (some a) found = From-deref a λ status there.
      From-machine m.now λ now.
        From-modify
          (begin a status now
            (record { status = a; context = context; logs_file = logs_file; id = i.id }) c)
          _ (λ s e. ap (begin a status now _) e)
          (From-pure (ok tt) (record {
            address = a;
            status = status;
            now = now;
            watcher = _;
            found = found;
            stands = there;
            waits_at = refl;
            waits_for = refl;
            left = refl;
          }))

  watch-Began :
      (i : Instance) (context logs_file : ℕ) (c : Core)
      → From c (Started i.id c) (watch m i context logs_file)
  unfolding watch
  watch-Began i context logs_file c = From-get λ s e.
      watched-From i context logs_file c (lookup i.id s.instance_statuses)
        (ap (λ d. lookup i.id d.instance_statuses) (sym e))

  unless_error-From :
      {A : Type 0} (id : Text) (c : Core) (r : Ret A) (f : A → M (Osv W) (Ret (Unit {0})))
      → ((a : A) → From c (Started id c) (f a))
      → From c (Started id c) (or_return r f)
  unless_error-From id c r f = From-or_return r λ e. refl

  launch-Started :
      (i : Instance) (extras : OsvExtras) (command : ℕ) (c : Core)
      → From c (Started i.id c) (launch m i extras command)
  unfolding launch
  launch-Started i extras command c = From-machine m.with_cancel λ context.
      From-machine (start_processes m context extras.vm_proc) λ started.
        unless_error-From i.id c started _ λ _.
          From-machine (m.create_file (instance_logs_path m i)) λ file.
            unless_error-From i.id c (wrap_osv file) _ λ logs_file.
              From-machine (m.start_command command) λ now_runs.
                unless_error-From i.id c (wrap_osv now_runs) _
                  λ _. watch-Began i context logs_file c

  on_qemu-Started :
      (i : Instance) (name platform : Text) (extras : OsvExtras) (c : Core)
      → From c (Started i.id c) (start_with m i name platform extras)
  unfolding start_with
  on_qemu-Started i name platform extras c = elim (Bool-cases (platform == qemu)) [
    | inl is_qemu ↦
        rw (is_qemu, start_with)
          (From-machine (vm_command m name extras)
            λ command. unless_error-From i.id c command _ λ n. launch-Started i extras n c)
    | inr other ↦ rw (other, start_with) (From-pure _ refl)
  ]

  extras-Started :
      (i : Instance) (name platform : Text) (extras : Option OsvExtras) (c : Core)
      → From c (Started i.id c) (start_found m i name platform extras)
  unfolding start_found
  extras-Started i name platform none c = From-pure _ refl
  extras-Started i name platform (some extras) c = on_qemu-Started i name platform extras c

  found-Started :
      (i : Instance) (there : Text × Text) (c : Core)
      → From c (Started i.id c) (start_there m i there)
  unfolding start_there
  found-Started i (name, platform) c = elim (Bool-cases (name == [])) [
    | inl empty ↦ rw (empty, start_there) (From-pure _ refl)
    | inr named ↦
        rw (named, start_there)
          (From-get λ s e. extras-Started i name platform (lookup i.id s.instance_extras) c)
  ]

  pub start_instance-Started :
      (i : Instance) (c : Core) → From c (Started i.id c) (start_instance m i)
  unfolding start_instance
  start_instance-Started i c =
      From-machine (m.search_instance i.id) λ there. found-Started i there c
