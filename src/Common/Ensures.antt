-- ===== src/Common/Ensures.antt =====
-- A postcondition of a call, from every state: what holds of its result and state if it returns.
use feather_multiruntimenetw.Common.Effects.{
  M, Outcome, done, panic, stuck, Ends, ◌>>=◌, ◌>>◌, crash, Ret, ok, err, or_return, Error,
}

pub record Ensures {S A : Type 0} (P : A → S → Type 0) (m : M S A) : Type 0 where
  pub at : (s : S) → Ends P (m s)

module _ {S : Type 0} where
  seq-Ends :
      {A B : Type 0} (Q : A → Type 0) (P : B → S → Type 0) (o : Outcome (A × S)) (f : A → M S B)
      → Ends (λ a t. Q a) o
      → ((a : A) → Q a → Ensures P (f a))
      → Ends P (elim o [ done r ↦ f r.0 r.1 | panic ↦ panic | stuck ↦ stuck ])
  seq-Ends Q P panic f h g = tt
  seq-Ends Q P stuck f h g = tt
  seq-Ends Q P (done (a, t)) f h g = (g a h).at t

  any-Ends : {A : Type 0} (o : Outcome (A × S)) → Ends (λ a t. Unit {0}) o
  any-Ends (done r) = tt
  any-Ends panic = tt
  any-Ends stuck = tt

  -- What the first call is known to return may be used for the rest.
  pub Ensures-seq :
      {A B : Type 0} (Q : A → Type 0) {P : B → S → Type 0} {m : M S A} {f : A → M S B}
      → Ensures (λ a t. Q a) m
      → ((a : A) → Q a → Ensures P (f a))
      → Ensures P (m >>= f)
  Ensures-seq Q {P = P} {m = m} {f = f} h g = record { at = λ s. seq-Ends Q P (m s) f (h.at s) g }

  -- A postcondition of the last call is one of the whole.
  pub Ensures-bind :
      {A B : Type 0} {P : B → S → Type 0} (m : M S A) {f : A → M S B}
      → ((a : A) → Ensures P (f a))
      → Ensures P (m >>= f)
  Ensures-bind {A = A} {P = P} m {f = f} g = record {
    at = λ s. seq-Ends (λ (a : A). Unit {0}) P (m s) f (any-Ends (m s)) (λ a q. g a);
  }

  pub Ensures-then :
      {A B : Type 0} {P : B → S → Type 0} (m : M S A) {n : M S B} → Ensures P n → Ensures P (m >> n)
  Ensures-then m g = Ensures-bind m (λ _. g)

  pub Ensures-crash : {A : Type 0} {P : A → S → Type 0} → Ensures P crash
  Ensures-crash = record { at = λ s. tt }

  -- A property of the result that every error has is one of what follows the check of an error.
  pub Ensures-or_error :
      {A B : Type 0} (P : Ret B → Type 0) (r : Ret A) (f : A → M S (Ret B))
      → ((e : Error) → P (err e))
      → ((a : A) → Ensures (λ b t. P b) (f a))
      → Ensures (λ b t. P b) (or_return r f)
  Ensures-or_error P (ok a) f p g = g a
  Ensures-or_error P (err e) f p g = record { at = λ s. p e }
