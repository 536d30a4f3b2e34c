-- ===== src/Common/Effects.antt =====
-- How a call of Go code ends, and the monad of calls over a state.
use feather_multiruntimenetw.Common.Texts.{Text}

-- The errors that the program makes; `library` is one that a foreign call returned.
pub data Error : Type 0 where
  library : Text → Error
  message : Text → Error
  wrapped : Text → Error → Error

-- A result `(a, error)`. The error alone is `Ret (Unit {0})`, with `ok tt` for nil.
pub data Ret (A : Type 0) : Type 0 where
  ok : A → Ret A
  err : Error → Ret A

-- A call returns, panics, or has used up the rounds given to its retry loops.
pub data Outcome (A : Type 0) : Type 0 where
  done : A → Outcome A
  panic : Outcome A
  stuck : Outcome A

abbrev pub M : Type 0 → Type 0 → Type 0
M S A = S → Outcome (A × S)

module _ {S : Type 0} where
  abbrev pub pure : {A : Type 0} → A → M S A
  pure a s = done (a, s)

  abbrev pub crash : {A : Type 0} → M S A
  crash s = panic

  abbrev pub get : M S S
  get s = done (s, s)

  abbrev pub modify : (S → S) → M S (Unit {0})
  modify f s = done (tt, f s)

infixl 5 ◌>>=◌ ◌>>◌
abbrev pub ◌>>=◌ : {S A B : Type 0} → M S A → (A → M S B) → M S B
◌>>=◌ m f s = elim (m s) [ done r ↦ f r.0 r.1 | panic ↦ panic | stuck ↦ stuck ]

abbrev pub ◌>>◌ : {S A B : Type 0} → M S A → M S B → M S B
m >> k = m >>= λ _. k

-- `if err != nil { return ..., err }`
abbrev pub or_return : {S A B : Type 0} → Ret A → (A → M S (Ret B)) → M S (Ret B)
or_return (ok a) f = f a
or_return (err e) f = pure (err e)

-- What holds if the call returns.
abbrev pub Ends {κ} : {S A : Type 0} → (A → S → Type κ) → Outcome (A × S) → Type κ
Ends P (done r) = P r.0 r.1
Ends P panic = Unit
Ends P stuck = Unit

-- What holds, where the call is known to return.
abbrev pub Returns : {S A : Type 0} → (A → S → Type 0) → Outcome (A × S) → Type 0
Returns P (done r) = P r.0 r.1
Returns P panic = ⊥
Returns P stuck = ⊥
