-- ===== src/Provider/Osv/Told.antt =====
-- What GetInstanceStatus tells of the instances after CreateInstance, of
-- pkg/provider/backend_osv.go.
use feather_multiruntimenetw.Common.{
  ℕ, zero, suc, List, [], ◌∷◌, ◌++◌, ◌≡◌, refl, ap, sym, subst, ◌∙◌, ◌≢◌, ◌⊎◌, inl, inr, Option,
  none, some, Text, text_eq, Ret, ok, err, Outcome, done, panic, stuck, ◌>>=◌, get_elem?, length,
  ◌<◌,
}
use feather_multiruntimenetw.Common.Dict.{
  lookup, lookup-insert_self, lookup-insert_ne, lookup-erase_self, lookup-erase_ne,
}
use feather_multiruntimenetw.Common.Cells.{get_elem?-append, get_elem?-append_last}
use feather_multiruntimenetw.Provider.Spec.{Instance}
use feather_multiruntimenetw.Provider.Osv.{Machine, Osv, VmStatus, waiting, new_osv_backend}
use feather_multiruntimenetw.Provider.Osv.Core.{Core, core}
use feather_multiruntimenetw.Provider.Osv.Stop.{
  pointee, deref, status_at, get_instance_status, no_instance,
}
use feather_multiruntimenetw.Provider.Osv.Create.{create_instance}
use feather_multiruntimenetw.Provider.Osv.Changes.{erases, add_status, Created}
use feather_multiruntimenetw.Provider.Osv.Changes.Creates.{create_instance-Created}
use feather_multiruntimenetw.Provider.Osv.Lifecycle.{Valid, erases-Valid}
use feather_multiruntimenetw.Provider.Osv.Steps.{Reach, Reach-Valid, left_by}
use feather_multiruntimenetw.Provider.Osv.Histories.{new_osv_backend-Valid}

-- The result of a call, without the state that it leaves.
abbrev result : {S A : Type 0} → Outcome (A × S) → Outcome A
result (done r) = done r.0
result panic = panic
result stuck = stuck

-- What `GetInstanceStatus` returns for an instance.
abbrev pub told : {W : Type 0} → Instance → Osv W → Outcome (Ret VmStatus)
told i s = result (get_instance_status i s)

-- What is told from the pointer of an instance, if it has one.
abbrev read : List VmStatus → Option ℕ → Outcome (Ret VmStatus)
read memory none = done no_instance
read memory (some a) = elim (get_elem? memory a) [ none ↦ panic | some status ↦ done (ok status) ]

abbrev told_of : Core → Text → Outcome (Ret VmStatus)
told_of c id = read c.memory (lookup id c.instance_statuses)

read_cell :
    {W : Type 0} (i : Instance) (cell : Option VmStatus) (s : Osv W)
    → result ((pointee cell >>= λ status t. done (ok status, t)) s)
      ≡ elim cell [ none ↦ panic | some status ↦ done (ok status) ]
read_cell i none s = refl
read_cell i (some status) s = refl

read_at :
    {W : Type 0} (i : Instance) (o : Option ℕ) (s : Osv W)
    → result (status_at i o s) ≡ read s.memory o
unfolding status_at deref
read_at i none s = refl
read_at i (some a) s = read_cell i (get_elem? s.memory a) s

told_lem : {W : Type 0} (i : Instance) (s : Osv W) → told i s ≡ told_of (core s) i.id
unfolding get_instance_status
told_lem i s = read_at i (lookup i.id s.instance_statuses) s

read_appended :
    (memory : List VmStatus) (status : VmStatus) (o : Option ℕ)
    → ((a : ℕ) → o ≡ some a → a < length memory)
    → read (memory ++ status ∷ []) o ≡ read memory o
read_appended memory status none b = refl
read_appended memory status (some a) b =
    ap (λ cell. elim cell [ none ↦ panic | some v ↦ done (ok v) ])
      (get_elem?-append memory (status ∷ []) a (b a refl))

told_of-erases_ne :
    (j id : Text) (n : ℕ) (c : Core) → j ≢ id → told_of (erases id n c) j ≡ told_of c j
told_of-erases_ne j id zero c ne = refl
told_of-erases_ne j id (suc n) c ne =
    ap (read (erases id n c).memory) (lookup-erase_ne j id (erases id n c).instance_statuses ne)
    ∙ told_of-erases_ne j id n c ne

told_of-add_status_ne :
    (j id : Text) (status : VmStatus) (c : Core)
    → Valid c
    → j ≢ id
    → told_of (add_status id status c) j ≡ told_of c j
told_of-add_status_ne j id status c v ne =
    ap (read (c.memory ++ status ∷ []))
      (lookup-insert_ne j id (length c.memory) c.instance_statuses ne)
    ∙ read_appended c.memory status (lookup j c.instance_statuses) (v.bounded j)

told_of-add_status :
    (id : Text) (status : VmStatus) (c : Core)
    → told_of (add_status id status c) id ≡ done (ok status)
told_of-add_status id status c =
    ap (read (c.memory ++ status ∷ []))
      (lookup-insert_self id (length c.memory) c.instance_statuses)
    ∙ ap (λ cell. elim cell [ none ↦ panic | some v ↦ done (ok v) ])
        (get_elem?-append_last c.memory status)

told_of-erases :
    (id : Text) (n : ℕ) (c : Core)
    → (told_of (erases id n c) id ≡ told_of c id) ⊎ (told_of (erases id n c) id ≡ done no_instance)
told_of-erases id zero c = inl refl
told_of-erases id (suc n) c =
    inr (ap (read (erases id n c).memory) (lookup-erase_self id (erases id n c).instance_statuses))

-- What is told of the instance that was created: a status that waits, or, after an error, what
-- was told before or that there is no such instance.
abbrev pub ToldOwn : Ret (Unit {0}) → Outcome (Ret VmStatus) → Outcome (Ret VmStatus) → Type 0
ToldOwn (ok _) before after =
    (status : VmStatus) × (after ≡ done (ok status)) × (status.state ≡ waiting)
ToldOwn (err e) before after = (after ≡ before) ⊎ (after ≡ done no_instance)

told_own :
    (id : Text) (c d : Core) (r : Ret (Unit {0}))
    → Created id c r d
    → ToldOwn r (told_of c id) (told_of d id)
told_own id c d (ok _) made =
    subst (λ x. ToldOwn (ok tt) (told_of c id) (told_of x id)) (sym made.left)
      (made.status, told_of-add_status id made.status (erases id made.times c), made.waits)
told_own id c d (err e) gone =
    subst (λ x. ToldOwn (err e) (told_of c id) (told_of x id)) (sym gone.left)
      (told_of-erases id gone.times c)

told_other :
    (j id : Text) (c d : Core) (r : Ret (Unit {0}))
    → Valid c
    → Created id c r d
    → j ≢ id
    → told_of d j ≡ told_of c j
told_other j id c d (ok _) v made ne =
    ap (λ x. told_of x j) made.left
    ∙ told_of-add_status_ne j id made.status (erases id made.times c)
        (erases-Valid id made.times c v) ne
    ∙ told_of-erases_ne j id made.times c ne
told_other j id c d (err e) v gone ne =
    ap (λ x. told_of x j) gone.left ∙ told_of-erases_ne j id gone.times c ne

module _ {W : Type 0} (m : Machine W) where
  -- After every history from NewOSvBackend in which no instance that runs is started again, where
  -- creating an instance returns: of the instance created without an error a status that waits is
  -- told, and of one whose creation failed either what was told before or that it does not exist;
  -- of an instance with another identifier the same as before is told.
  pub get_instance_status-create_instance :
      (w : W) {s t : Osv W} (i j : Instance) (r : Ret (Unit {0}))
      → Reach m (new_osv_backend w) s
      → create_instance m i s ≡ done (r, t)
      → j.id ≢ i.id
      → ToldOwn r (told i s) (told i t) × (told j t ≡ told j s)
  get_instance_status-create_instance w {s = s} {t = t} i j r history returned ne =
      let valid = Reach-Valid m (new_osv_backend-Valid w) history in
      let c = left_by m s t r (create_instance-Created m i (core s)) returned in
      (
        rw (told_lem i s, told_lem i t) (told_own i.id (core s) (core t) r c),
        told_lem j t ∙ told_other j.id i.id (core s) (core t) r valid c ne ∙ sym (told_lem j s),
      )
