-- ===== src/Network/Devices/Frame.antt =====
-- What a call of a network manager leaves alone: the entries of the other pods, and the addresses
-- given out. The rules follow the way in which the calls are put together.
use feather_multiruntimenetw.Common.{
  ℕ, ◌≡◌, refl, ◌∙◌, ◌≢◌, Text, text_eq, M, Ret, ok, err, Outcome, done, panic, stuck, Ends, ◌>>=◌,
  ◌>>◌, pure, crash, or_return, get, modify,
}
use feather_multiruntimenetw.Common.Dict.{lookup, insert, lookup-insert_ne}
use feather_multiruntimenetw.Network.Devices.{
  PodDevices, Node, kern, device, set_device, device_or, next_ip, get_next_sub_pod_ip,
}

-- From `s` to `t` no other pod's entry changes, nor do the addresses that are given out.
pub record Keeps {W : Type 0} (name : Text) (s t : Node W) : Type 0 where
  pub devices : (o : Text) → o ≢ name → lookup o t.pod_devices ≡ lookup o s.pod_devices
  pub namespaces : (o : Text) → o ≢ name → lookup o t.pod_namespaces ≡ lookup o s.pod_namespaces
  pub addresses : t.addresses ≡ s.addresses

module _ {W : Type 0} (name : Text) where
  pub Keeps-refl : (s : Node W) → Keeps name s s
  Keeps-refl s = record { devices = λ o ne. refl; namespaces = λ o ne. refl; addresses = refl }

  pub Keeps-trans : (s t u : Node W) → Keeps name s t → Keeps name t u → Keeps name s u
  Keeps-trans s t u p q = record {
    devices = λ o ne. q.devices o ne ∙ p.devices o ne;
    namespaces = λ o ne. q.namespaces o ne ∙ p.namespaces o ne;
    addresses = q.addresses ∙ p.addresses;
  }

-- The call keeps the rest of the state, from any state in which it returns.
pub record IsLocal {W A : Type 0} (name : Text) (m : M (Node W) A) : Type 0 where
  pub at : (s : Node W) → Ends (λ a t. Keeps name s t) (m s)

module _ {W : Type 0} where
  kern-Ends :
      {A : Type 0} (name : Text) (s : Node W) (o : Outcome (A × W))
      → Ends
          (λ a t. Keeps name s t)
          (elim o [ done r ↦ done (r.0, record s { world = r.1 }) | panic ↦ panic | stuck ↦ stuck ])
  kern-Ends name s panic = tt
  kern-Ends name s stuck = tt
  kern-Ends name s (done (a, w)) = record {
    devices = λ o ne. refl;
    namespaces = λ o ne. refl;
    addresses = refl;
  }

  next-Ends :
      {A : Type 0} (name : Text) (s : Node W) (o : Outcome (A × PodDevices))
      → Ends
          (λ a t. Keeps name s t)
          (elim o [
            | done r ↦ done (r.0, record s { pod_devices = insert name r.1 s.pod_devices })
            | panic ↦ panic
            | stuck ↦ stuck
          ])
  next-Ends name s panic = tt
  next-Ends name s stuck = tt
  next-Ends name s (done (a, d)) = record {
    devices = λ o ne. lookup-insert_ne o name d s.pod_devices ne;
    namespaces = λ o ne. refl;
    addresses = refl;
  }

module _ {W : Type 0} {name : Text} where
  after :
      {B : Type 0} (s t : Node W) (o : Outcome (B × Node W))
      → Keeps name s t
      → Ends (λ b u. Keeps name t u) o
      → Ends (λ b u. Keeps name s u) o
  after s t panic p h = tt
  after s t stuck p h = tt
  after s t (done (b, u)) p h = Keeps-trans name s t u p h

  bind-Ends :
      {A B : Type 0} (s : Node W) (o : Outcome (A × Node W)) (f : A → M (Node W) B)
      → Ends (λ a t. Keeps name s t) o
      → ((a : A) → IsLocal name (f a))
      → Ends (λ b u. Keeps name s u) (elim o [ done r ↦ f r.0 r.1 | panic ↦ panic | stuck ↦ stuck ])
  bind-Ends s panic f h g = tt
  bind-Ends s stuck f h g = tt
  bind-Ends s (done (a, t)) f h g = after s t (f a t) h ((g a).at t)

  pub IsLocal-bind :
      {A B : Type 0} {m : M (Node W) A} {f : A → M (Node W) B}
      → IsLocal name m
      → ((a : A) → IsLocal name (f a))
      → IsLocal name (m >>= f)
  IsLocal-bind {m = m} {f = f} h g = record { at = λ s. bind-Ends s (m s) f (h.at s) g }

  pub IsLocal-then :
      {A B : Type 0} {m : M (Node W) A} {n : M (Node W) B}
      → IsLocal name m
      → IsLocal name n
      → IsLocal name (m >> n)
  IsLocal-then h g = IsLocal-bind h (λ _. g)

  pub IsLocal-pure : {A : Type 0} (a : A) → IsLocal {W = W} name (pure a)
  IsLocal-pure a = record { at = λ s. Keeps-refl name s }

  pub IsLocal-crash : {A : Type 0} → IsLocal {W = W} {A = A} name crash
  IsLocal-crash = record { at = λ s. tt }

  pub IsLocal-get : IsLocal {W = W} name get
  IsLocal-get = record { at = λ s. Keeps-refl name s }

  pub IsLocal-kern : {A : Type 0} (m : M W A) → IsLocal name (kern m)
  IsLocal-kern m = record { at = λ s. kern-Ends name s (m s.world) }

  pub IsLocal-device : (n : Text) → IsLocal {W = W} name (device n)
  IsLocal-device n = record { at = λ s. Keeps-refl name s }

  pub IsLocal-set_device : (d : PodDevices) → IsLocal {W = W} name (set_device name d)
  IsLocal-set_device d = record {
    at = λ s. record {
      devices = λ o ne. lookup-insert_ne o name d s.pod_devices ne;
      namespaces = λ o ne. refl;
      addresses = refl;
    };
  }

  pub IsLocal-set_namespace :
      (ns : ℕ)
      → IsLocal {W = W} name
          (modify (λ t. record t { pod_namespaces = insert name ns t.pod_namespaces }))
  IsLocal-set_namespace ns = record {
    at = λ s. record {
      devices = λ o ne. refl;
      namespaces = λ o ne. lookup-insert_ne o name ns s.pod_namespaces ne;
      addresses = refl;
    };
  }

  pub IsLocal-next_ip : IsLocal {W = W} name (next_ip name)
  unfolding next_ip
  IsLocal-next_ip = record {
    at = λ s.
        next-Ends name s (get_next_sub_pod_ip s.addresses (device_or (lookup name s.pod_devices)));
  }

  pub IsLocal-or_return :
      {A B : Type 0} (r : Ret A) (f : A → M (Node W) (Ret B))
      → ((a : A) → IsLocal name (f a))
      → IsLocal name (or_return r f)
  IsLocal-or_return (ok a) f h = h a
  IsLocal-or_return (err e) f h = IsLocal-pure (err e)

pub ruleset local = (
  IsLocal-bind, IsLocal-then, IsLocal-pure, IsLocal-crash, IsLocal-get, IsLocal-kern,
  IsLocal-device, IsLocal-set_device, IsLocal-set_namespace, IsLocal-next_ip, IsLocal-or_return,
)
