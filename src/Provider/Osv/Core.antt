-- ===== src/Provider/Osv/Core.antt =====
-- The part of the state of OSvBackend of which the virtual machines' states are read, and
-- postconditions on it.
use feather_multiruntimenetw.Common.{
  ℕ, List, ◌≡◌, refl, ap, sym, subst, ◌∙◌, Option, none, some, Text, M, Ret, ok, err, Error,
  Outcome, done, panic, stuck, Ends, ◌>>=◌, ◌>>◌, crash, get, modify, or_return, get_elem?,
}
use feather_multiruntimenetw.Common.Dict.{Dict}
use feather_multiruntimenetw.Provider.Osv.{Osv, VmStatus, Watcher, lifted, on_machine}
use feather_multiruntimenetw.Provider.Osv.Stop.{pointee, deref}

pub record Core : Type 0 where
  pub instance_statuses : Dict Text ℕ
  pub memory : List VmStatus
  pub watchers : List Watcher

abbrev pub core : {W : Type 0} → Osv W → Core
core s = record {
  instance_statuses = s.instance_statuses;
  memory = s.memory;
  watchers = s.watchers;
}

-- From every state with that part, what holds of the result and of the part that is left.
pub record From {W A : Type 0} (c : Core) (P : A → Core → Type 0) (m : M (Osv W) A) : Type 0 where
  pub at : (s : Osv W) → core s ≡ c → Ends (λ r t. P r (core t)) (m s)

module _ {W : Type 0} where
  pub From-pure :
      {A : Type 0} {c : Core} {P : A → Core → Type 0} (a : A)
      → P a c
      → From {W = W} c P (λ s. done (a, s))
  From-pure {P = P} a p = record { at = λ s e. subst (λ d. P a d) (sym e) p }

  pub From-crash : {A : Type 0} {c : Core} {P : A → Core → Type 0} → From {W = W} c P crash
  From-crash = record { at = λ s e. tt }

  machine-Ends :
      {A B : Type 0} (c : Core) (P : B → Core → Type 0) (o : Outcome (A × W)) (s : Osv W)
      → core s ≡ c
      → (f : A → M (Osv W) B) → ((a : A) → From c P (f a))
      → Ends
          (λ r t. P r (core t))
          (elim (lifted s o) [ done r ↦ f r.0 r.1 | panic ↦ panic | stuck ↦ stuck ])
  machine-Ends c P (done (a, w)) s e f g = (g a).at (record s { world = w }) e
  machine-Ends c P panic s e f g = tt
  machine-Ends c P stuck s e f g = tt

  pub From-machine :
      {A B : Type 0} {c : Core} {P : B → Core → Type 0} (x : M W A) {f : A → M (Osv W) B}
      → ((a : A) → From c P (f a))
      → From c P (on_machine x >>= f)
  From-machine {c = c} {P = P} x {f = f} g = record {
    at = λ s e. machine-Ends c P (x s.world) s e f g;
  }

  seq-Ends :
      {A B : Type 0} (Q : A → Core → Type 0) (P : B → Core → Type 0) (o : Outcome (A × Osv W))
      (f : A → M (Osv W) B)
      → Ends (λ a t. Q a (core t)) o
      → ((a : A) (d : Core) → Q a d → From d P (f a))
      → Ends (λ r t. P r (core t)) (elim o [ done r ↦ f r.0 r.1 | panic ↦ panic | stuck ↦ stuck ])
  seq-Ends Q P (done (a, t)) f q g = (g a (core t) q).at t refl
  seq-Ends Q P panic f q g = tt
  seq-Ends Q P stuck f q g = tt

  pub From-seq :
      {A B : Type 0} {c : Core} (Q : A → Core → Type 0) {P : B → Core → Type 0} {x : M (Osv W) A}
      {f : A → M (Osv W) B}
      → From c Q x
      → ((a : A) (d : Core) → Q a d → From d P (f a))
      → From c P (x >>= f)
  From-seq {c = c} Q {P = P} {x = x} {f = f} h g = record {
    at = λ s e. seq-Ends Q P (x s) f (h.at s e) g;
  }

  pub From-get :
      {B : Type 0} {c : Core} {P : B → Core → Type 0} {f : Osv W → M (Osv W) B}
      → ((s : Osv W) → core s ≡ c → From c P (f s))
      → From c P (get >>= f)
  From-get g = record { at = λ s e. (g s e).at s e }

  pub From-modify :
      {B : Type 0} {c : Core} (d : Core) {P : B → Core → Type 0} (g : Osv W → Osv W)
      {x : M (Osv W) B}
      → ((s : Osv W) → core s ≡ c → core (g s) ≡ d)
      → From d P x
      → From c P (modify g >> x)
  From-modify d g k h = record { at = λ s e. h.at (g s) (k s e) }

  pub From-or_return :
      {A B : Type 0} {c : Core} {P : Ret B → Core → Type 0} (r : Ret A) {f : A → M (Osv W) (Ret B)}
      → ((e : Error) → P (err e) c)
      → ((a : A) → From c P (f a))
      → From c P (or_return r f)
  From-or_return (ok a) p g = g a
  From-or_return (err e) p g = From-pure (err e) (p e)

  pointee-From :
      {B : Type 0} (c : Core) (P : B → Core → Type 0) (o : Option VmStatus)
      (f : VmStatus → M (Osv W) B)
      → ((status : VmStatus) → o ≡ some status → From c P (f status))
      → From c P (pointee o >>= f)
  pointee-From c P none f g = record { at = λ s e. tt }
  pointee-From c P (some status) f g = record { at = λ s e. (g status refl).at s e }

  pub From-deref :
      {B : Type 0} {c : Core} {P : B → Core → Type 0} (a : ℕ) {f : VmStatus → M (Osv W) B}
      → ((status : VmStatus) → get_elem? c.memory a ≡ some status → From c P (f status))
      → From c P (deref (some a) >>= f)
  unfolding deref
  From-deref {c = c} {P = P} a {f = f} g = record {
    at = λ s e.
        (pointee-From c P (get_elem? s.memory a) f
            (λ status there. g status (ap (λ d. get_elem? d.memory a) (sym e) ∙ there))).at
          s e;
  }

  pub From-set :
      {c : Core} {P : Unit {0} → Core → Type 0} (g : Osv W → Osv W)
      → ((s : Osv W) → core s ≡ c → P tt (core (g s)))
      → From c P (modify g)
  From-set g k = record { at = k }
