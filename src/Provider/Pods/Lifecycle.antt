-- ===== src/Provider/Pods/Lifecycle.antt =====
-- Shared by the modules on CreatePod and UpdatePod of pkg/provider/pod.go: the table of instances
-- before and after a call.
use feather_multiruntimenetw.Common.{
  ◌≡◌, refl, true, Text, text_eq, M, Ret, ok, err, Outcome, done, panic, stuck, Ends, ◌>>=◌,
  Bool-cases, inl, inr, ◌==◌, arith, beq_eq, ne_of_beq,
}
use feather_multiruntimenetw.Common.Dict.{
  Dict, contains, insert, lookup-insert_self, lookup-insert_ne,
}
use feather_multiruntimenetw.Provider.Spec.{Container, Pod, Instance}
use feather_multiruntimenetw.Provider.Identifier.{pod_and_container_to_identifier}
use feather_multiruntimenetw.Provider.Host.{Host, Provider}
use feather_multiruntimenetw.Provider.Instances.{new_instance, collision}
use feather_multiruntimenetw.Provider.Pods.Tables.{SameTables, Reads}

-- The container has an instance in the table.
abbrev pub HasInstance : {W : Type 0} → Pod → Provider W → Container → Type 0
HasInstance pod s c = contains (pod_and_container_to_identifier pod c.name) s.instances ≡ true

-- What holds after a call if it holds after the rest from every state that the first call, which
-- leaves the tables alone, may leave.
module _ {W : Type 0} where
  from_reads :
      {A B : Type 0} (P : B → Provider W → Type 0) (s : Provider W) (o : Outcome (A × Provider W))
      (f : A → M (Provider W) B)
      → Ends (λ a t. SameTables s t) o
      → ((a : A) (t : Provider W) → SameTables s t → Ends P (f a t))
      → Ends P (elim o [ done r ↦ f r.0 r.1 | panic ↦ panic | stuck ↦ stuck ])
  from_reads P s panic f h g = tt
  from_reads P s stuck f h g = tt
  from_reads P s (done (a, t)) f h g = g a t h

  pub after-Reads :
      {A B : Type 0} (P : B → Provider W → Type 0) (s : Provider W) (m : M (Provider W) A)
      (f : A → M (Provider W) B)
      → Reads m
      → ((a : A) (t : Provider W) → SameTables s t → Ends P (f a t))
      → Ends P ((m >>= f) s)
  after-Reads P s m f r g = from_reads P s (m s) f (r.at s) g

pub contains-insert_self :
    (k : Text) (i : Instance) (d : Dict Text Instance) → contains k (insert k i d) ≡ true
contains-insert_self k i d = ground (arith, lookup-insert_self k i d)

pub contains-insert :
    (j k : Text) (i : Instance) (d : Dict Text Instance)
    → contains j d ≡ true
    → contains j (insert k i d) ≡ true
contains-insert j k i d h = elim (Bool-cases (j == k)) [
  | inl same ↦ rw (beq_eq j k same) (contains-insert_self k i d)
  | inr other ↦ ground (arith, lookup-insert_ne j k i d (ne_of_beq j k other))
]

module _ {W : Type 0} where
  -- The call returned an error.
  abbrev pub Failed : {A : Type 0} → Ret A → Provider W → Type 0
  Failed (ok a) t = ⊥
  Failed (err e) t = Unit

module _ {W : Type 0} (h : Host W) where
  pub new_instance-collision :
      (pod : Pod) (c : Container) (s : Provider W)
      → HasInstance pod s c
      → new_instance h pod c s ≡ done (collision, s)
  unfolding new_instance
  new_instance-collision pod c s there = rw there refl
