-- ===== src/Provider/Osv/Steps.antt =====
-- Histories of OSvBackend of pkg/provider/backend_osv.go: the calls of its operations, and the
-- ends of its virtual machines, in any order. An instance that runs is not started again:
-- pkg/provider starts an instance once, after its creation.
use feather_multiruntimenetw.Common.{
  ℕ, List, ◌∷◌, ◌++◌, ◌≡◌, refl, sym, subst, ◌∙◌, ◌≢◌, Text, M, Ret, ok, err, done, Ends, All,
}
use feather_multiruntimenetw.Common.Cells.{All-middle}
use feather_multiruntimenetw.Provider.Spec.{Instance}
use feather_multiruntimenetw.Provider.Osv.{Machine, Osv, Watcher}
use feather_multiruntimenetw.Provider.Osv.Core.{Core, core, From}
use feather_multiruntimenetw.Provider.Osv.Stop.{kill_instance, delete_instance}
use feather_multiruntimenetw.Provider.Osv.Start.{start_instance, exit}
use feather_multiruntimenetw.Provider.Osv.Create.{create_instance, update_instance}
use feather_multiruntimenetw.Provider.Osv.Changes.{
  erases, Deleted, Created, Started, delete_instance-Deleted, kill_instance-From,
}
use feather_multiruntimenetw.Provider.Osv.Lifecycle.{started, phase, Valid, Tended, erases-Valid}
use feather_multiruntimenetw.Provider.Osv.Exits.{exit-Finished, ended_core-Valid}
use feather_multiruntimenetw.Provider.Osv.Moves.{
  Follows, same-Follows, erases-Follows, Made-Follows, Began-Follows, ended-Follows, found_phase,
}
use feather_multiruntimenetw.Provider.Osv.Changes.Creates.{
  create_instance-Created, update_instance-Created,
}
use feather_multiruntimenetw.Provider.Osv.Changes.Starts.{start_instance-Started}
use feather_multiruntimenetw.Provider.Osv.Lifecycle.Additions.{add_status-Valid}
use feather_multiruntimenetw.Provider.Osv.Lifecycle.Writes.{begin-Valid}

-- The backend without the routine that has ended.
abbrev pub without_watcher : {W : Type 0} → Osv W → List Watcher → Osv W
without_watcher s rest = record s { watchers = rest }

module _ {W : Type 0} (m : Machine W) where
  pub data Step : Osv W → Osv W → Type 0 where
    creates :
        {s t : Osv W} (i : Instance) (r : Ret (Unit {0}))
        → create_instance m i s ≡ done (r, t)
        → Step s t
    updates :
        {s t : Osv W} (i : Instance) (r : Ret (Unit {0}))
        → update_instance m i s ≡ done (r, t)
        → Step s t
    starts :
        {s t : Osv W} (i : Instance) (r : Ret (Unit {0}))
        → phase (core s) i.id ≢ started
        → start_instance m i s ≡ done (r, t)
        → Step s t
    kills :
        {s t : Osv W} (i : Instance) (r : Ret (Unit {0}))
        → kill_instance m i s ≡ done (r, t)
        → Step s t
    deletes :
        {s t : Osv W} (i : Instance) (r : Ret (Unit {0}))
        → delete_instance m i s ≡ done (r, t)
        → Step s t
    exits :
        {s t : Osv W} (before : List Watcher) (w : Watcher) (after : List Watcher) (code : ℕ)
        (msg : Text)
        → s.watchers ≡ before ++ w ∷ after
        → exit m w code msg (without_watcher s (before ++ after)) ≡ done (tt, t)
        → Step s t

  -- What is left after a history, from a state.
  pub data Reach (s : Osv W) : Osv W → Type 0 where
    starting : Reach s s
    further : {t u : Osv W} → Reach s t → Step t u → Reach s u

  -- What a call is known to leave, where it returned.
  pub left_by :
      {A : Type 0} {P : A → Core → Type 0} {x : M (Osv W) A} (s t : Osv W) (r : A)
      → From (core s) P x
      → x s ≡ done (r, t)
      → P r (core t)
  left_by {P = P} s t r f e = subst (Ends (λ a u. P a (core u))) e (f.at s refl)

  pub Created-Valid :
      (id : Text) (c d : Core) (r : Ret (Unit {0})) → Valid c → Created id c r d → Valid d
  Created-Valid id c d (ok _) v made =
      subst Valid (sym made.left)
        (add_status-Valid id made.status (erases id made.times c) (erases-Valid id made.times c v))
  Created-Valid id c d (err e) v gone = subst Valid (sym gone.left) (erases-Valid id gone.times c v)

  Created-Follows :
      (id : Text) (c d : Core) (r : Ret (Unit {0}))
      → Valid c
      → Created id c r d
      → Follows (phase c) (phase d)
  Created-Follows id c d (ok _) v made = Made-Follows id c d v made
  Created-Follows id c d (err e) v gone =
      subst (λ x. Follows (phase c) (phase x)) (sym gone.left) (erases-Follows id gone.times c)

  pub Deleted-Valid :
      (id : Text) (c d : Core) (r : Ret (Unit {0})) → Valid c → Deleted id c r d → Valid d
  Deleted-Valid id c d (ok _) v e = subst Valid (sym e) (erases-Valid id 1 c v)
  Deleted-Valid id c d (err _) v e = subst Valid (sym e) v

  Deleted-Follows :
      (id : Text) (c d : Core) (r : Ret (Unit {0})) → Deleted id c r d → Follows (phase c) (phase d)
  Deleted-Follows id c d (ok _) e =
      subst (λ x. Follows (phase c) (phase x)) (sym e) (erases-Follows id 1 c)
  Deleted-Follows id c d (err _) e =
      subst (λ x. Follows (phase c) (phase x)) (sym e)
        (same-Follows (phase c) (phase c) id (λ j. refl))

  started-Valid :
      (id : Text) (c d : Core) (r : Ret (Unit {0}))
      → Valid c
      → phase c id ≢ started
      → Started id c r d
      → Valid d
  started-Valid id c d (ok _) v idle b = subst Valid (sym b.left) (
      begin-Valid id b.address b.status b.now b.watcher c v b.found b.stands
        (λ e. idle (found_phase c id b.address b.status b.found b.stands ∙ e)) b.waits_at
        b.waits_for)
  started-Valid id c d (err _) v idle e = subst Valid (sym e) v

  started-Follows :
      (id : Text) (c d : Core) (r : Ret (Unit {0}))
      → Valid c
      → phase c id ≢ started
      → Started id c r d
      → Follows (phase c) (phase d)
  started-Follows id c d (ok _) v idle b = Began-Follows id c d v idle b
  started-Follows id c d (err _) v idle e =
      subst (λ x. Follows (phase c) (phase x)) (sym e)
        (same-Follows (phase c) (phase c) id (λ j. refl))

  Step-Valid : {s t : Osv W} → Valid (core s) → Step s t → Valid (core t)
  Step-Valid {s = s} {t = t} v (creates i r e) =
      Created-Valid i.id (core s) (core t) r v
        (left_by s t r (create_instance-Created m i (core s)) e)
  Step-Valid {s = s} {t = t} v (updates i r e) =
      Created-Valid i.id (core s) (core t) r v
        (left_by s t r (update_instance-Created m i (core s)) e)
  Step-Valid {s = s} {t = t} v (starts i r idle e) =
      started-Valid i.id (core s) (core t) r v idle
        (left_by s t r (start_instance-Started m i (core s)) e)
  Step-Valid {s = s} {t = t} v (kills i r e) =
      subst Valid (sym (left_by s t r (kill_instance-From m i (core s)) e)) v
  Step-Valid {s = s} {t = t} v (deletes i r e) =
      Deleted-Valid i.id (core s) (core t) r v
        (left_by s t r (delete_instance-Deleted m i (core s)) e)
  Step-Valid {s = s} {t = t} v (exits before w after code msg there e) =
      let u : Osv W = without_watcher s (before ++ after) in
      let f = left_by u t tt (exit-Finished m w code msg (core u)) e in
      subst Valid (sym f.left) (ended_core-Valid (core s) before w after _ v there)

  pub Reach-Valid : {s t : Osv W} → Valid (core s) → Reach s t → Valid (core t)
  Reach-Valid v starting = v
  Reach-Valid v (further before last) = Step-Valid (Reach-Valid v before) last

  pub Step-Follows :
      {s t : Osv W} → Valid (core s) → Step s t → Follows (phase (core s)) (phase (core t))
  Step-Follows {s = s} {t = t} v (creates i r e) =
      Created-Follows i.id (core s) (core t) r v
        (left_by s t r (create_instance-Created m i (core s)) e)
  Step-Follows {s = s} {t = t} v (updates i r e) =
      Created-Follows i.id (core s) (core t) r v
        (left_by s t r (update_instance-Created m i (core s)) e)
  Step-Follows {s = s} {t = t} v (starts i r idle e) =
      started-Follows i.id (core s) (core t) r v idle
        (left_by s t r (start_instance-Started m i (core s)) e)
  Step-Follows {s = s} {t = t} v (kills i r e) =
      subst (λ x. Follows (phase (core s)) (phase x))
        (sym (left_by s t r (kill_instance-From m i (core s)) e))
        (same-Follows (phase (core s)) (phase (core s)) i.id (λ j. refl))
  Step-Follows {s = s} {t = t} v (deletes i r e) =
      Deleted-Follows i.id (core s) (core t) r
        (left_by s t r (delete_instance-Deleted m i (core s)) e)
  Step-Follows {s = s} {t = t} v (exits before w after code msg there e) =
      let u : Osv W = without_watcher s (before ++ after) in
      let f = left_by u t tt (exit-Finished m w code msg (core u)) e in
      let tends =
        All-middle (Tended (core s)) before w after
          (subst (All (Tended (core s))) there v.tended) in
      subst (λ x. Follows (phase (core s)) (phase x)) (sym f.left)
        (ended-Follows (core s) (before ++ after) w f.status code msg f.time f.now tends.0)
