-- ===== src/Provider/Osv/Histories.antt =====
-- What holds of OSvBackend, of pkg/provider/backend_osv.go, after every history that begins with
-- NewOSvBackend.
use feather_multiruntimenetw.Common.{
  ℕ, List, ◌∷◌, ◌++◌, ◌≡◌, ap, sym, subst, Option, some, Text, text_eq, M, Outcome, done, panic,
  stuck, Returns, ◌>>=◌, get_elem?, All,
}
use feather_multiruntimenetw.Common.Cells.{All-middle, get_elem?-lt, get_elem?-set_self}
use feather_multiruntimenetw.Provider.Osv.{
  Machine, Osv, VmState, unset, waiting, running, terminated, VmStatus, Watcher, lifted,
  new_osv_backend,
}
use feather_multiruntimenetw.Provider.Osv.Core.{core}
use feather_multiruntimenetw.Provider.Osv.Stop.{deref, pointee}
use feather_multiruntimenetw.Provider.Osv.Start.{exit, started_at, terminate}
use feather_multiruntimenetw.Provider.Osv.Lifecycle.{ended, phase, Valid, Tended, cell_phase}
use feather_multiruntimenetw.Provider.Osv.Moves.{Follows}
use feather_multiruntimenetw.Provider.Osv.Steps.{
  Step, Reach, without_watcher, Reach-Valid, Step-Follows,
}

pub new_osv_backend-Valid : {W : Type 0} (w : W) → Valid (core (new_osv_backend w))
new_osv_backend-Valid w = record {
  bounded = λ j a h. cc;
  injective = λ j k a h h'. cc;
  tended = tt;
  apart = tt;
}

-- The machine returns from the calls of a routine that waits.
pub record Settles {W : Type 0} (m : Machine W) : Type 0 where
  pub cancels : (context : ℕ) (w : W) → Returns (λ r w'. Unit {0}) (m.cancel context w)
  pub closes : (file : ℕ) (w : W) → Returns (λ r w'. Unit {0}) (m.close_file file w)
  pub tells : (w : W) → Returns (λ r w'. Unit {0}) (m.now w)

module _ {W : Type 0} (m : Machine W) where
  -- After every history from NewOSvBackend in which no instance that runs is started again, a call,
  -- other than such a start, or the end of a virtual machine moves one instance along the life of
  -- a virtual machine, or none, and leaves the phases of all others.
  pub Step-Follows-Reach :
      (w : W) {s t : Osv W}
      → Reach m (new_osv_backend w) s
      → Step m s t
      → Follows (phase (core s)) (phase (core t))
  Step-Follows-Reach w before step =
      Step-Follows m (Reach-Valid m (new_osv_backend-Valid w) before) step

  bind-Returns :
      {A B : Type 0} (P : B → Osv W → Type 0) (o : Outcome (A × W)) (s : Osv W)
      (f : A → M (Osv W) B)
      → Returns (λ r w'. Unit {0}) o
      → ((a : A) (w : W) → Returns P (f a (record s { world = w })))
      → Returns P (elim (lifted s o) [ done r ↦ f r.0 r.1 | panic ↦ panic | stuck ↦ stuck ])
  bind-Returns P (done (a, w)) s f r g = g a w
  bind-Returns P panic s f r g = absurd r
  bind-Returns P stuck s f r g = absurd r

  terminate-Returns :
      (settles : Settles m) (w : Watcher) (code : ℕ) (msg : Text) (status : VmStatus) (time : ℕ)
      (s : Osv W)
      → get_elem? s.memory w.status ≡ some status
      → Returns
          (λ _ t. cell_phase (get_elem? t.memory w.status) ≡ ended)
          (terminate m w code msg status time s)
  unfolding terminate
  terminate-Returns settles w code msg status time s there =
      bind-Returns _ (m.now s.world) s _ (settles.tells s.world) λ now w'.
        ap cell_phase
          (get_elem?-set_self s.memory w.status _ (get_elem?-lt s.memory w.status status there))

  running-Returns :
      (settles : Settles m) (w : Watcher) (code : ℕ) (msg : Text) (status : VmStatus) (time : ℕ)
      (state : VmState) (s : Osv W)
      → get_elem? s.memory w.status ≡ some status
      → state ≡ running time
      → Returns
          (λ _ t. cell_phase (get_elem? t.memory w.status) ≡ ended)
          ((started_at m state >>= λ from. terminate m w code msg status from) s)
  unfolding started_at
  running-Returns settles w code msg status time (running from) s there e =
      terminate-Returns settles w code msg status from s there
  running-Returns settles w code msg status time unset s there e = cc
  running-Returns settles w code msg status time waiting s there e = cc
  running-Returns settles w code msg status time (terminated a b c d) s there e = cc

  pointee-Returns :
      {B : Type 0} (P : B → Osv W → Type 0) (o : Option VmStatus) (status : VmStatus)
      (f : VmStatus → M (Osv W) B) (s : Osv W)
      → o ≡ some status
      → Returns P (f status s)
      → Returns P ((pointee o >>= f) s)
  pointee-Returns P o status f s e r = subst (λ x. Returns P ((pointee x >>= f) s)) (sym e) r

  exit-Returns :
      (settles : Settles m) (w : Watcher) (code : ℕ) (msg : Text) (status : VmStatus) (time : ℕ)
      (s : Osv W)
      → get_elem? s.memory w.status ≡ some status
      → status.state ≡ running time
      → Returns (λ _ t. cell_phase (get_elem? t.memory w.status) ≡ ended) (exit m w code msg s)
  unfolding exit deref
  exit-Returns settles w code msg status time s stands runs =
      bind-Returns _ (m.cancel w.context s.world) s _ (settles.cancels w.context s.world) λ _ w₁.
        bind-Returns _ (m.close_file w.logs_file w₁) (record s { world = w₁ }) _
          (settles.closes w.logs_file w₁)
          λ _ w₂.
            pointee-Returns _ (get_elem? s.memory w.status) status _ (record s { world = w₂ })
              stands
              (running-Returns settles w code msg status time status.state (record s { world = w₂ })
                stands runs)

  -- After every history from NewOSvBackend in which no instance that runs is started again, the
  -- routine of a virtual machine that has ended does not panic, where the machine returns from its
  -- calls: it returns, and the status that it waited to write is ended.
  pub exit-Returns-Reach :
      (settles : Settles m) (w : W) {s : Osv W} (before : List Watcher) (v : Watcher)
      (after : List Watcher) (code : ℕ) (msg : Text)
      → Reach m (new_osv_backend w) s
      → s.watchers ≡ before ++ v ∷ after
      → Returns
          (λ _ t. cell_phase (get_elem? t.memory v.status) ≡ ended)
          (exit m v code msg (without_watcher s (before ++ after)))
  exit-Returns-Reach settles w {s = s} before v after code msg history there =
      let valid = Reach-Valid m (new_osv_backend-Valid w) history in
      let t =
        (All-middle (Tended (core s)) before v after
          (subst (All (Tended (core s))) there valid.tended)).0 in
      exit-Returns settles v code msg t.status t.time (without_watcher s (before ++ after)) t.stands
        t.runs
