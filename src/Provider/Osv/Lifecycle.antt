-- ===== src/Provider/Osv/Lifecycle.antt =====
-- The phases of a virtual machine of pkg/provider/backend_osv.go, and the states of OSvBackend in
-- which the routines that wait have the virtual machines that run.
pub mod Additions
pub mod Writes
use feather_multiruntimenetw.Common.{
  ℕ, zero, suc, List, [], ◌∷◌, ◌≡◌, refl, ap, sym, subst, ◌∙◌, ◌≢◌, ◌⊎◌, ◌<◌, Option, none, some,
  Text, text_eq, get_elem?, set, length, Bool-cases, inl, inr, ◌==◌, All, if◌then◌else◌, arith,
  beq_eq, ne_of_beq,
}
use feather_multiruntimenetw.Common.Dict.{
  Dict, lookup, insert, erase, lookup-insert, lookup-erase_self, lookup-erase_ne,
}
use feather_multiruntimenetw.Common.Cells.{
  get_elem?-lt, get_elem?-set_self, get_elem?-set_ne, length-set, get_elem?-append,
  length-append_one, All-imply,
}
use feather_multiruntimenetw.Provider.Osv.{
  VmState, unset, waiting, running, terminated, VmStatus, Watcher,
}
use feather_multiruntimenetw.Provider.Osv.Core.{Core}
use feather_multiruntimenetw.Provider.Osv.Changes.{erases, add_status, begin}

pub data Phase : Type 0 where
  absent created started ended : Phase

abbrev pub state_phase : VmState → Phase
state_phase unset = created
state_phase waiting = created
state_phase (running t) = started
state_phase (terminated code msg from to) = ended

abbrev pub cell_phase : Option VmStatus → Phase
cell_phase none = absent
cell_phase (some status) = state_phase status.state

abbrev pub address_phase : List VmStatus → Option ℕ → Phase
address_phase memory none = absent
address_phase memory (some a) = cell_phase (get_elem? memory a)

-- The phase of an instance, as the table of statuses has it.
abbrev pub phase : Core → Text → Phase
phase c id = address_phase c.memory (lookup id c.instance_statuses)

-- The status that a routine waits to write is Running, and no other instance has it.
pub record Tended (c : Core) (w : Watcher) : Type 0 where
  pub status : VmStatus
  pub time : ℕ
  pub stands : get_elem? c.memory w.status ≡ some status
  pub runs : status.state ≡ running time
  pub owned : (j : Text) → lookup j c.instance_statuses ≡ some w.status → j ≡ w.id

-- No two routines wait to write one status.
abbrev pub Apart : List Watcher → Type 0
Apart [] = Unit
Apart (w ∷ ws) = All (λ v. v.status ≢ w.status) ws × Apart ws

-- Pointers lead to statuses, no two instances share one, and routines wait for what runs.
pub record Valid (c : Core) : Type 0 where
  pub bounded : (j : Text) (a : ℕ) → lookup j c.instance_statuses ≡ some a → a < length c.memory
  pub injective :
      (j k : Text) (a : ℕ)
      → lookup j c.instance_statuses ≡ some a
      → lookup k c.instance_statuses ≡ some a
      → j ≡ k
  pub tended : All (Tended c) c.watchers
  pub apart : Apart c.watchers

pub some_injective : {A : Type 0} {a b : A} → some a ≡ some b → a ≡ b
some_injective e = cc

lookup-erase_imp :
    (j id : Text) (a : ℕ) (d : Dict Text ℕ) → lookup j (erase id d) ≡ some a → lookup j d ≡ some a
lookup-erase_imp j id a d h = elim (Bool-cases (j == id)) [
  | inl same ↦
      let gone : lookup j (erase id d) ≡ none = rw (beq_eq j id same) (lookup-erase_self id d) in
      absurd (differ (sym gone ∙ h))
  | inr other ↦ sym (lookup-erase_ne j id d (ne_of_beq j id other)) ∙ h
]
  where
    differ : none ≡ some a → ⊥
    differ p = cc

-- The removal of a status.
erase-Valid :
    (id : Text) (c : Core)
    → Valid c
    → Valid (record c { instance_statuses = erase id c.instance_statuses })
erase-Valid id c v = record {
  bounded = λ j a h. v.bounded j a (lookup-erase_imp j id a c.instance_statuses h);
  injective = λ j k a h h'.
      v.injective j k a (lookup-erase_imp j id a c.instance_statuses h)
        (lookup-erase_imp k id a c.instance_statuses h');
  tended =
      All-imply c.watchers
        (λ w t. record {
          status = t.status;
          time = t.time;
          stands = t.stands;
          runs = t.runs;
          owned = λ j h. t.owned j (lookup-erase_imp j id w.status c.instance_statuses h);
        })
        v.tended;
  apart = v.apart;
}

pub erases-Valid : (id : Text) (n : ℕ) (c : Core) → Valid c → Valid (erases id n c)
erases-Valid id zero c v = v
erases-Valid id (suc n) c v = erase-Valid id (erases id n c) (erases-Valid id n c v)

-- Of a new pointer.
lookup-insert_cases :
    (j id : Text) (a n : ℕ) (d : Dict Text ℕ)
    → lookup j (insert id n d) ≡ some a
    → ((j ≡ id) × (a ≡ n)) ⊎ (lookup j d ≡ some a)
lookup-insert_cases j id a n d h = elim (Bool-cases (j == id)) [
  | inl same ↦
      let p : lookup j (insert id n d) ≡ some n =
        lookup-insert j id n d ∙ ap (λ b. if b then some n else lookup j d) same in
      inl (beq_eq j id same, some_injective (sym h ∙ p))
  | inr other ↦
      let p : lookup j (insert id n d) ≡ lookup j d =
        lookup-insert j id n d ∙ ap (λ b. if b then some n else lookup j d) other in
      inr (sym p ∙ h)
]
