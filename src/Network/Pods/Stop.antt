-- ===== src/Network/Pods/Stop.antt =====
-- StopPodNetwork of pkg/network/MultiRuntimeNetworking.go: what it leaves in the manager.
use feather_multiruntimenetw.Common.{
  ℕ, ◌≡◌, refl, ◌∙◌, Text, text_eq, M, Ret, ok, err, Outcome, done, panic, stuck, Ends, ◌>>=◌, pure,
  or_return,
}
use feather_multiruntimenetw.Network.Kernel.{Kernel}
use feather_multiruntimenetw.Network.Devices.{Node, kern, device}
use feather_multiruntimenetw.Network.MultiRuntime.{stop_pod_network}

-- Nothing but the machine has changed.
pub record SameManager {W : Type 0} (s t : Node W) : Type 0 where
  pub devices : t.pod_devices ≡ s.pod_devices
  pub namespaces : t.pod_namespaces ≡ s.pod_namespaces
  pub addresses : t.addresses ≡ s.addresses

record Leaves {W A : Type 0} (m : M (Node W) A) : Type 0 where
  at : (s : Node W) → Ends (λ a t. SameManager s t) (m s)

module _ {W : Type 0} where
  SameManager-refl : (s : Node W) → SameManager s s
  SameManager-refl s = record { devices = refl; namespaces = refl; addresses = refl }

  SameManager-trans : (s t u : Node W) → SameManager s t → SameManager t u → SameManager s u
  SameManager-trans s t u p q = record {
    devices = q.devices ∙ p.devices;
    namespaces = q.namespaces ∙ p.namespaces;
    addresses = q.addresses ∙ p.addresses;
  }

  onwards :
      {A : Type 0} (s t : Node W) (o : Outcome (A × Node W))
      → SameManager s t
      → Ends (λ a u. SameManager t u) o
      → Ends (λ a u. SameManager s u) o
  onwards s t (done (a, u)) e p = SameManager-trans s t u e p
  onwards s t panic e p = tt
  onwards s t stuck e p = tt

  bind-Leaves :
      {A B : Type 0} (s : Node W) (o : Outcome (A × Node W)) (f : A → M (Node W) B)
      → Ends (λ a t. SameManager s t) o
      → ((a : A) → Leaves (f a))
      → Ends
          (λ b u. SameManager s u)
          (elim o [ done r ↦ f r.0 r.1 | panic ↦ panic | stuck ↦ stuck ])
  bind-Leaves s panic f h g = tt
  bind-Leaves s stuck f h g = tt
  bind-Leaves s (done (a, t)) f h g = onwards s t (f a t) h ((g a).at t)

  kern-Leaves :
      {A : Type 0} (s : Node W) (o : Outcome (A × W))
      → Ends
          (λ a t. SameManager s t)
          (elim o [ done r ↦ done (r.0, record s { world = r.1 }) | panic ↦ panic | stuck ↦ stuck ])
  kern-Leaves s panic = tt
  kern-Leaves s stuck = tt
  kern-Leaves s (done (a, w)) = record { devices = refl; namespaces = refl; addresses = refl }

  Leaves-bind :
      {A B : Type 0} {m : M (Node W) A} {f : A → M (Node W) B}
      → Leaves m
      → ((a : A) → Leaves (f a))
      → Leaves (m >>= f)
  Leaves-bind {m = m} {f = f} h g = record { at = λ s. bind-Leaves s (m s) f (h.at s) g }

  Leaves-pure : {A : Type 0} (a : A) → Leaves {W = W} (pure a)
  Leaves-pure a = record { at = λ s. SameManager-refl s }

  Leaves-device : (n : Text) → Leaves {W = W} (device n)
  Leaves-device n = record { at = λ s. SameManager-refl s }

  Leaves-kern : {A : Type 0} (m : M W A) → Leaves (kern m)
  Leaves-kern m = record { at = λ s. kern-Leaves s (m s.world) }

  Leaves-or_return :
      {A B : Type 0} (r : Ret A) (f : A → M (Node W) (Ret B))
      → ((a : A) → Leaves (f a))
      → Leaves (or_return r f)
  Leaves-or_return (ok a) f h = h a
  Leaves-or_return (err e) f h = Leaves-pure (err e)

ruleset leaves = (Leaves-bind, Leaves-pure, Leaves-device, Leaves-kern, Leaves-or_return)

module _ {W : Type 0} (k : Kernel W) (rounds : ℕ) where
  stop_pod_network-Leaves : (cns podname : Text) → Leaves (stop_pod_network k rounds cns podname)
  unfolding stop_pod_network
  stop_pod_network-Leaves cns podname = search leaves depth 12

  -- When stopping a pod returns, the manager still has the devices, the namespaces and the
  -- addresses that it had before: the pod's address is not freed.
  pub stop_pod_network-SameManager :
      (cns podname : Text) (s : Node W)
      → Ends (λ r t. SameManager s t) (stop_pod_network k rounds cns podname s)
  stop_pod_network-SameManager cns podname s = (stop_pod_network-Leaves cns podname).at s
