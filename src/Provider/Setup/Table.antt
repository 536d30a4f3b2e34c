-- ===== src/Provider/Setup/Table.antt =====
-- The table of backends that NewProviderConfig of pkg/provider/provider.go makes.
use feather_multiruntimenetw.Common.{
  ℕ, List, [], ◌∷◌, ◌≡◌, refl, ap, ◌∙◌, Bool, true, false, ◌||◌, Text, text_eq, M, Ret, ok, err,
  Outcome, done, panic, stuck, Ends, or_return, ◌==◌, Bool-cases, inl, inr, All, arith,
}
use feather_multiruntimenetw.Common.Ensures.{Ensures, Ensures-seq}
use feather_multiruntimenetw.Common.Dict.{Dict, insert, contains, lookup-insert}
use feather_multiruntimenetw.Provider.Host.{Provider}
use feather_multiruntimenetw.Provider.Instances.{backend_containerd}
use feather_multiruntimenetw.Provider.Setup.{
  Config, Setup, backend_osv, new_backend, set_up, with_defaults, enabled_or, new_provider_config,
}

abbrev pub is_in : Text → List Text → Bool
is_in e [] = false
is_in e (x ∷ xs) = (e == x) || is_in e xs

abbrev pub is_supported : Text → Bool
is_supported e = (e == backend_containerd) || (e == backend_osv)

abbrev pub Supported : List Text → Type 0
Supported es = All (λ e. is_supported e ≡ true) es

-- The table holds, besides what it held, the names that are enabled.
record Filled (backends : Dict Text ℕ) (es : List Text) (left : Dict Text ℕ) : Type 0 where
  pub holds : (e : Text) → contains e left ≡ (contains e backends || is_in e es)
  pub supported : Supported es

abbrev FilledRet : Dict Text ℕ → List Text → Ret (Dict Text ℕ) → Type 0
FilledRet backends es (ok left) = Filled backends es left
FilledRet backends es (err e) = Unit

contains-insert :
    (e x : Text) (b : ℕ) (d : Dict Text ℕ) → contains e (insert x b d) ≡ ((e == x) || contains e d)
contains-insert e x b d = ground (arith, lookup-insert e x b d)

swap_or : (a b c : Bool) → ((a || b) || c) ≡ (b || (a || c))
swap_or a b c = ground arith

with_next :
    (x : Text) (b : ℕ) (d : Dict Text ℕ) (es : List Text) (left : Dict Text ℕ)
    → is_supported x ≡ true
    → Filled (insert x b d) es left
    → Filled d (x ∷ es) left
with_next x b d es left s f = record {
  holds = λ e.
      f.holds e
      ∙ ap (λ c. c || is_in e es) (contains-insert e x b d)
      ∙ swap_or (e == x) (contains e d) (is_in e es);
  supported = (s, f.supported);
}

next_ret :
    (x : Text) (b : ℕ) (d : Dict Text ℕ) (es : List Text) (r : Ret (Dict Text ℕ))
    → is_supported x ≡ true
    → FilledRet (insert x b d) es r
    → FilledRet d (x ∷ es) r
next_ret x b d es (ok left) s f = with_next x b d es left s f
next_ret x b d es (err e) s f = tt

abbrev Known : Text → Ret ℕ → Type 0
Known e (ok b) = is_supported e ≡ true
Known e (err x) = Unit

Known-got : (e : Text) (r : Ret ℕ) → is_supported e ≡ true → Known e r
Known-got e (ok b) h = h
Known-got e (err x) h = tt

-- What the setting up of a provider gives: the tables at its start.
pub record SetUp {W : Type 0} (enabled : List Text) (p : Provider W) : Type 0 where
  pub holds : (e : Text) → contains e p.backends ≡ is_in e enabled
  pub supported : Supported enabled
  pub no_pods : p.pods ≡ []
  pub no_instances : p.instances ≡ []

abbrev pub SetUpRet : {W : Type 0} → List Text → Ret (W → Provider W) → Type 0
SetUpRet {W = W} enabled (ok p) = (w : W) → SetUp enabled (p w)
SetUpRet enabled (err e) = Unit

filled-Ends :
    {W : Type 0} (e : Text) (b : ℕ) (d : Dict Text ℕ) (es : List Text)
    (o : Outcome (Ret (Dict Text ℕ) × W))
    → is_supported e ≡ true
    → Ends (λ r w. FilledRet (insert e b d) es r) o
    → Ends (λ r w. FilledRet d (e ∷ es) r) o
filled-Ends e b d es (done (r, w)) s f = next_ret e b d es r s f
filled-Ends e b d es panic s f = tt
filled-Ends e b d es stuck s f = tt

or_false : (b : Bool) → b ≡ (b || false)
or_false true = refl
or_false false = refl

Known-Ends :
    {W : Type 0} (e : Text) (o : Outcome (Ret ℕ × W))
    → is_supported e ≡ true
    → Ends (λ r w. Known e r) o
Known-Ends e (done (r, w)) h = Known-got e r h
Known-Ends e panic h = tt
Known-Ends e stuck h = tt

module _ {W : Type 0} (h : Setup W) where
  any-Known :
      (e : Text) (m : M W (Ret ℕ)) → is_supported e ≡ true → Ensures (λ r (w : W). Known e r) m
  any-Known e m s = record { at = λ w. Known-Ends e (m w) s }

  new_backend-Known : (e : Text) → Ensures (λ r (w : W). Known e r) (new_backend h e)
  unfolding new_backend
  new_backend-Known e = elim (Bool-cases (e == backend_containerd)) [
    | inl c ↦
        let s : is_supported e ≡ true = rw c refl in
        rw (c, new_backend) (any-Known e h.new_containerd_backend s)
    | inr n ↦ elim (Bool-cases (e == backend_osv)) [
      | inl o ↦
          let s : is_supported e ≡ true = rw (n, o) refl in
          rw (n, o, new_backend) (any-Known e h.new_osv_backend s)
      | inr u ↦ rw (n, u, new_backend) (record { at = λ w. tt })
    ]
  ]

  with_backend :
      (e : Text) (d : Dict Text ℕ) (es : List Text) (r : Ret ℕ)
      → Known e r
      → ((b : ℕ)
          → Ensures (λ r (w : W). FilledRet (insert e b d) es r) (set_up h (insert e b d) es))
      → Ensures
          (λ r (w : W). FilledRet d (e ∷ es) r)
          (or_return r λ backend. set_up h (insert e backend d) es)
  with_backend e d es (err x) k f = record { at = λ w. tt }
  with_backend e d es (ok b) k f = record {
    at = λ w. filled-Ends e b d es (set_up h (insert e b d) es w) k ((f b).at w);
  }

  set_up-Filled :
      (d : Dict Text ℕ) (es : List Text) → Ensures (λ r (w : W). FilledRet d es r) (set_up h d es)
  unfolding set_up
  set_up-Filled d [] = record {
    at = λ w. record { holds = λ e. or_false (contains e d); supported = tt };
  }
  set_up-Filled d (e ∷ es) =
      Ensures-seq (Known e) (new_backend-Known e)
        λ r k. with_backend e d es r k λ b. set_up-Filled (insert e b d) es

  table-SetUp :
      (enabled : List Text) (r : Ret (Dict Text ℕ))
      → FilledRet [] enabled r
      → Ensures
          (λ p (w : W). SetUpRet {W = W} enabled p)
          (or_return r λ backends. λ w.
            done
              (ok (λ v. record { backends = backends; pods = []; instances = []; world = v }), w))
  table-SetUp enabled (err e) f = record { at = λ w. tt }
  table-SetUp enabled (ok backends) f = record {
    at = λ w v. record {
      holds = f.holds;
      supported = f.supported;
      no_pods = refl;
      no_instances = refl;
    };
  }

  -- Where a provider is made without an error, its table has a backend for the names that are
  -- enabled, or for containerd if none is, and for no other name; each of them is supported, and
  -- there are no pods and no instances.
  pub new_provider_config-SetUp :
      (config : Config) (w : W)
      → Ends (λ r w'. SetUpRet (enabled_or config.enabled) r) (new_provider_config h config w)
  unfolding new_provider_config with_defaults
  new_provider_config-SetUp config w =
      (Ensures-seq (FilledRet [] (enabled_or config.enabled))
          (set_up-Filled [] (enabled_or config.enabled))
          λ r f. table-SetUp (enabled_or config.enabled) r f).at
        w
