-- ===== src/Provider/Osv/Answers.antt =====
-- A machine on which a virtual machine can be made and started: what CreateInstance and
-- StartInstance of pkg/provider/backend_osv.go rely on.
use feather_multiruntimenetw.Common.{
  ◌≡◌, Text, ℕ, List, Ret, ok, Outcome, done, panic, stuck, M, Ends, Returns, refl, err, or_return,
  pure,
}
use feather_multiruntimenetw.Provider.Osv.{Machine, Osv, VmConfig, lifted, wrap_osv}
use feather_multiruntimenetw.Provider.Osv.Stop.{qemu}

abbrev pub Some : {A W : Type 0} → A → W → Type 0
Some a w = Unit

abbrev pub IsOk : {A W : Type 0} → Ret A → W → Type 0
IsOk {A = A} r w = (a : A) × (r ≡ ok a)

-- `found` says that the machine has an instance under a name, and a configuration that is stored
-- makes it so.
pub record Answers {W : Type 0} (m : Machine W) (found : Text → W → Type 0) : Type 0 where
  pub searches : (id : Text) (w : W) → Returns Some (m.search_instance id w)
  pub finds :
      (id : Text) (w : W) → found id w → Returns (λ r w'. r ≡ (id, qemu)) (m.search_instance id w)
  pub stops : (id : Text) (w : W) → Returns Some (m.stop_vm id w)
  pub deletes : (id : Text) (w : W) → Returns Some (m.delete_vm id w)
  pub is_qemu : (image : Text) (w : W) → Returns (λ r w'. r ≡ ok qemu) (m.image_hypervisor image w)
  pub looks : (path : Text) (w : W) → Returns Some (m.exists path w)
  pub tunnels : (ns pod name : Text) (w : W) → Returns Some (m.create_vm_tun ns pod name w)
  pub gateways : (ns pod : Text) (w : W) → Returns Some (m.gateway_address ns pod w)
  pub ports : (w : W) → Returns Some (m.available_port w)
  pub makes : (path : Text) (w : W) → Returns IsOk (m.mkdir_all path w)
  pub stores :
      (c : VmConfig) (w : W) → Returns (λ r w'. (r ≡ ok tt) × found c.name w') (m.store_config c w)
  pub loads : (name : Text) (w : W) → Returns IsOk (m.load_config name w)
  pub commands : (c : VmConfig) (args : List Text) (w : W) → Returns IsOk (m.vm_command c args w)
  pub contexts : (w : W) → Returns Some (m.with_cancel w)
  pub files : (path : Text) (w : W) → Returns IsOk (m.create_file path w)
  pub runs : (command : ℕ) (w : W) → Returns IsOk (m.start_command command w)
  pub tells : (w : W) → Returns Some (m.now w)

module _ {W : Type 0} where
  pub machine-Returns :
      {A B : Type 0} (Q : A → W → Type 0) (P : B → Osv W → Type 0) (o : Outcome (A × W)) (s : Osv W)
      (f : A → M (Osv W) B)
      → Returns Q o
      → ((a : A) (w : W) → Q a w → Returns P (f a (record s { world = w })))
      → Returns P (elim (lifted s o) [ done r ↦ f r.0 r.1 | panic ↦ panic | stuck ↦ stuck ])
  machine-Returns Q P (done (a, w)) s f r g = g a w r
  machine-Returns Q P panic s f r g = absurd r
  machine-Returns Q P stuck s f r g = absurd r

pub seq-Returns :
    {S A B : Type 0} (Q : A → S → Type 0) (P : B → S → Type 0) (o : Outcome (A × S)) (f : A → M S B)
    → Returns Q o
    → ((a : A) (t : S) → Q a t → Returns P (f a t))
    → Returns P (elim o [ done r ↦ f r.0 r.1 | panic ↦ panic | stuck ↦ stuck ])
seq-Returns Q P (done (a, t)) f r g = g a t r
seq-Returns Q P panic f r g = absurd r
seq-Returns Q P stuck f r g = absurd r

-- A call that returns has what it has if it returns.
pub both-Returns :
    {S A : Type 0} (Q P : A → S → Type 0) (o : Outcome (A × S))
    → Returns Q o
    → Ends P o
    → Returns (λ a t. Q a t × P a t) o
both-Returns Q P (done (a, t)) r e = (r, e)
both-Returns Q P panic r e = r
both-Returns Q P stuck r e = r

-- An error that is not there is not returned.
pub ok-Returns :
    {S A B : Type 0} (P : Ret B → S → Type 0) (r : Ret A) (f : A → M S (Ret B)) (s : S)
    → IsOk r s
    → ((a : A) → Returns P (f a s))
    → Returns P (or_return (wrap_osv r) f s)
ok-Returns P (ok a) f s i g = g a
ok-Returns P (err e) f s (a, p) g = cc

pub plain_ok-Returns :
    {S A B : Type 0} (P : Ret B → S → Type 0) (r : Ret A) (f : A → M S (Ret B)) (s : S)
    → IsOk r s
    → ((a : A) → Returns P (f a s))
    → Returns P (or_return r f s)
plain_ok-Returns P (ok a) f s i g = g a
plain_ok-Returns P (err e) f s (a, p) g = cc

pub passed_on-IsOk :
    {S A : Type 0} (r : Ret A) (s : S) → IsOk r s → Returns IsOk (pure (wrap_osv r) s)
passed_on-IsOk (ok a) s i = (a, refl)
passed_on-IsOk (err e) s (a, p) = cc
