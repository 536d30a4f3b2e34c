-- ===== src/Provider/Osv/Exits.antt =====
-- The end of a virtual machine: the routine that StartInstance of pkg/provider/backend_osv.go
-- leaves behind.
use feather_multiruntimenetw.Common.{
  ℕ, List, [], ◌∷◌, ◌++◌, ◌≡◌, refl, ap, sym, subst, ◌∙◌, ◌≢◌, ◌<◌, some, Text, get_elem?, set, All,
}
use feather_multiruntimenetw.Common.Cells.{length-set, All-imply, All-middle, All-both}
use feather_multiruntimenetw.Provider.Osv.{
  Machine, VmState, unset, waiting, running, terminated, VmStatus, Watcher,
}
use feather_multiruntimenetw.Provider.Osv.Core.{
  Core, From, From-pure, From-crash, From-machine, From-seq, From-deref, From-set,
}
use feather_multiruntimenetw.Provider.Osv.Start.{started_at, terminate, exit}
use feather_multiruntimenetw.Provider.Osv.Lifecycle.{Tended, Apart, Valid}
use feather_multiruntimenetw.Provider.Osv.Lifecycle.Writes.{written-Tended}

abbrev pub finish : Watcher → VmStatus → Core → Core
finish w status c = record c { memory = set c.memory w.status status }

-- The status of a routine was set to Terminated.
pub record Finished (w : Watcher) (code : ℕ) (msg : Text) (c d : Core) : Type 0 where
  pub status : VmStatus
  pub time : ℕ
  pub now : ℕ
  pub stands : get_elem? c.memory w.status ≡ some status
  pub runs : status.state ≡ running time
  pub left : d ≡ finish w (record status { state = terminated code msg time now }) c

module _ {W : Type 0} (m : Machine W) where
  started_at-From :
      (c : Core) (state : VmState)
      → From {W = W} c (λ t d. (state ≡ running t) × (d ≡ c)) (started_at m state)
  unfolding started_at
  started_at-From c (running t) = From-pure t (refl, refl)
  started_at-From c unset = From-crash
  started_at-From c waiting = From-crash
  started_at-From c (terminated code msg from to) = From-crash

  terminate-Finished :
      (w : Watcher) (code : ℕ) (msg : Text) (c : Core) (status : VmStatus) (time : ℕ) (d : Core)
      → get_elem? c.memory w.status ≡ some status
      → (status.state ≡ running time) × (d ≡ c)
      → From d (λ _ d'. Finished w code msg c d') (terminate m w code msg status time)
  unfolding terminate
  terminate-Finished w code msg c status time d there (runs, same) = From-machine m.now λ now.
      From-set _ λ s e. record {
        status = status;
        time = time;
        now = now;
        stands = there;
        runs = runs;
        left = ap (finish w (record status { state = terminated code msg time now })) (e ∙ same);
      }

  pub exit-Finished :
      (w : Watcher) (code : ℕ) (msg : Text) (c : Core)
      → From c (λ _ d. Finished w code msg c d) (exit m w code msg)
  unfolding exit
  exit-Finished w code msg c = From-machine (m.cancel w.context) λ _.
      From-machine (m.close_file w.logs_file) λ _. From-deref w.status λ status there.
        From-seq (λ t d. (status.state ≡ running t) × (d ≡ c)) (started_at-From c status.state)
          λ time d q. terminate-Finished w code msg c status time d there q

-- The routine that has ended is apart from the others.
Apart-middle :
    (before : List Watcher) (w : Watcher) (after : List Watcher)
    → Apart (before ++ w ∷ after)
    → All (λ v. v.status ≢ w.status) (before ++ after) × Apart (before ++ after)
Apart-middle [] w after h = h
Apart-middle (x ∷ before) w after h =
    let rest = Apart-middle before w after h.1 in
    let here = All-middle (λ v. v.status ≢ x.status) before w after h.0 in
    ((λ e. here.0 (sym e), rest.0), (here.1, rest.1))

abbrev pub ended_core : Core → List Watcher → ℕ → VmStatus → Core
ended_core c rest a status = record c { memory = set c.memory a status; watchers = rest }

-- What is left by a routine that has ended.
pub ended_core-Valid :
    (c : Core) (before : List Watcher) (w : Watcher) (after : List Watcher) (status : VmStatus)
    → Valid c
    → c.watchers ≡ before ++ w ∷ after
    → Valid (ended_core c (before ++ after) w.status status)
ended_core-Valid c before w after status v e =
    let others = Apart-middle before w after (subst Apart e v.apart) in
    let tended = All-middle (Tended c) before w after (subst (All (Tended c)) e v.tended) in
    record {
      bounded =
          λ j a h. subst (λ l. a < l) (sym (length-set c.memory w.status status)) (v.bounded j a h);
      injective = v.injective;
      tended =
          All-imply (before ++ after)
            (λ x p. written-Tended w.status status c (before ++ after) x p.0 p.1)
            (All-both (λ v. v.status ≢ w.status) (Tended c) (before ++ after) others.0 tended.1);
      apart = others.1;
    }
