-- ===== src/Network/Pods/Registered.antt =====
-- GetNetNsHandle after InitPodNetwork, of the two multi-runtime managers of pkg/network.
use feather_multiruntimenetw.Common.{
  ℕ, ◌≡◌, refl, some, Text, text_eq, M, Ret, ok, err, Error, Outcome, done, Ends, ◌>>◌, pure,
  or_return, modify,
}
use feather_multiruntimenetw.Common.Ensures.{Ensures, Ensures-bind, Ensures-then}
use feather_multiruntimenetw.Common.Dict.{lookup, insert, lookup-insert_self}
use feather_multiruntimenetw.Network.Ip.{Ip}
use feather_multiruntimenetw.Network.Kernel.{Kernel, Link}
use feather_multiruntimenetw.Network.Devices.{Node, get_net_ns}
use feather_multiruntimenetw.Network.MultiRuntime
use feather_multiruntimenetw.Network.MultiRuntime.{get_net_ns_handle, route_pod, must}
use feather_multiruntimenetw.Network.PodLocal

-- A call that returned without an error has left a namespace under the name.
abbrev pub Registers : {W : Type 0} → Text → Ret (Unit {0}) → Node W → Type 0
Registers name (err e) t = Unit
Registers name (ok _) t = (ns : ℕ) × (lookup name t.pod_namespaces ≡ some ns)

module _ {W : Type 0} (name : Text) where
  Ensures-err : (e : Error) → Ensures {S = Node W} (Registers name) (pure (err e))
  Ensures-err e = record { at = λ s. tt }

  Ensures-or_return :
      {A : Type 0} (r : Ret A) (f : A → M (Node W) (Ret (Unit {0})))
      → ((a : A) → Ensures (Registers name) (f a))
      → Ensures (Registers name) (or_return r f)
  Ensures-or_return (ok a) f h = h a
  Ensures-or_return (err e) f h = Ensures-err e

  Ensures-register :
      (ns : ℕ)
      → Ensures {S = Node W} (Registers name) (
          modify (λ t. record t { pod_namespaces = insert name ns t.pod_namespaces })
          >> pure (ok tt))
  Ensures-register ns = record { at = λ s. (ns, lookup-insert_self name ns s.pod_namespaces) }

ruleset registers = (Ensures-register, Ensures-bind, Ensures-then, Ensures-err, Ensures-or_return)

module _ {W : Type 0} (k : Kernel W) (rounds : ℕ) where
  route_pod-Registers :
      (name : Text) (pod_link cont_if : Link) (ip : Ip) (nsid : ℕ)
      → Ensures (Registers name) (route_pod k rounds name pod_link cont_if ip nsid)
  unfolding route_pod
  route_pod-Registers name pod_link cont_if ip nsid = search registers depth 30

  multi_runtime_bring_up-Registers :
      (name : Text) (ip : Ip) → Ensures (Registers name) (MultiRuntime.bring_up k rounds name ip)
  unfolding MultiRuntime.bring_up
  multi_runtime_bring_up-Registers name ip = search (registers, route_pod-Registers) depth 30

  pod_local_bring_up-Registers :
      (name : Text) (ip : Ip) → Ensures (Registers name) (PodLocal.bring_up k rounds name ip)
  unfolding PodLocal.bring_up
  pod_local_bring_up-Registers name ip = search (registers, route_pod-Registers) depth 30

-- What a caller of `GetNetNsHandle` then gets.
abbrev pub HandleFound : {W : Type 0} → Text → Text → Ret (Unit {0}) → Node W → Type 0
HandleFound cns podname (err e) t = Unit
HandleFound cns podname (ok _) t = (ns : ℕ) × (get_net_ns_handle cns podname t ≡ ok ns)

handle_found :
    {W : Type 0} (cns podname : Text) (o : Outcome (Ret (Unit {0}) × Node W))
    → Ends (Registers (get_net_ns cns podname)) o
    → Ends (HandleFound cns podname) o
unfolding get_net_ns_handle
handle_found cns podname (done (err e, t)) h = tt
handle_found cns podname (done (ok u, t)) h = (h.0, rw (h.1, get_net_ns_handle) refl)
handle_found cns podname Outcome.panic h = tt
handle_found cns podname Outcome.stuck h = tt

module _ {W : Type 0} (k : Kernel W) (rounds : ℕ) (cns podname : Text) (s : Node W) where
  -- When setting up a pod with the multi-runtime manager returns without an error, the handle of
  -- the pod's namespace is found.
  pub multi_runtime-init_pod_network-HandleFound :
      Ends (HandleFound cns podname) (MultiRuntime.init_pod_network k rounds cns podname s)
  unfolding MultiRuntime.init_pod_network
  multi_runtime-init_pod_network-HandleFound =
      let e : Ensures (Registers (get_net_ns cns podname))
          (MultiRuntime.init_pod_network k rounds cns podname) =
        search (registers, multi_runtime_bring_up-Registers) in
      handle_found cns podname (MultiRuntime.init_pod_network k rounds cns podname s) (e.at s)

  -- When setting up a pod with the manager with localhost routing returns without an error, the
  -- handle of the pod's namespace is found.
  pub pod_local-init_pod_network-HandleFound :
      Ends (HandleFound cns podname) (PodLocal.init_pod_network k rounds cns podname s)
  unfolding PodLocal.init_pod_network
  pod_local-init_pod_network-HandleFound =
      let e : Ensures (Registers (get_net_ns cns podname))
          (PodLocal.init_pod_network k rounds cns podname) =
        search (registers, pod_local_bring_up-Registers) in
      handle_found cns podname (PodLocal.init_pod_network k rounds cns podname s) (e.at s)
