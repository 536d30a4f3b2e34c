-- ===== src/Network/Pods/Frame.antt =====
-- The other pods while InitPodNetwork of one of the two multi-runtime managers sets up a pod.
use feather_multiruntimenetw.Common.{
  ℕ, ◌≡◌, ◌≢◌, refl, Text, text_eq, M, Ret, Outcome, done, panic, stuck, Ends, ◌>>=◌,
}
use feather_multiruntimenetw.Common.Dict.{lookup}
use feather_multiruntimenetw.Network.Ip.{Ip}
use feather_multiruntimenetw.Network.Kernel.{Kernel}
use feather_multiruntimenetw.Network.Addresses.{AddressManager, request_pod_ip}
use feather_multiruntimenetw.Network.Devices.{Node, get_net_ns, addr}
use feather_multiruntimenetw.Network.Devices.Frame.{Keeps, IsLocal}
use feather_multiruntimenetw.Network.MultiRuntime
use feather_multiruntimenetw.Network.MultiRuntime.{ip_or_empty}
use feather_multiruntimenetw.Network.MultiRuntime.Laws
use feather_multiruntimenetw.Network.PodLocal
use feather_multiruntimenetw.Network.PodLocal.Laws as PodLocalLaws

-- The entries of the other pods are as before, and the address manager is as the one request
-- that was made left it.
pub record OneRequest {W : Type 0} (parse_ip : Text → Ip) (cns podname : Text) (s t : Node W)
    : Type 0 where
  pub devices :
      (o : Text) → o ≢ get_net_ns cns podname → lookup o t.pod_devices ≡ lookup o s.pod_devices
  pub namespaces :
      (o : Text)
      → o ≢ get_net_ns cns podname
      → lookup o t.pod_namespaces ≡ lookup o s.pod_namespaces
  pub answer : Ret Ip
  pub requested : request_pod_ip parse_ip cns podname s.addresses ≡ done (answer, t.addresses)

module _ {W : Type 0} (k : Kernel W) where
  open k use {parse_ip}

  Keeps-one :
      (cns podname : Text) (s t : Node W) (r : Ret Ip) (am : AddressManager)
      → request_pod_ip parse_ip cns podname s.addresses ≡ done (r, am)
      → Keeps (get_net_ns cns podname) (record s { addresses = am }) t
      → OneRequest parse_ip cns podname s t
  Keeps-one cns podname s t r am e h = record {
    devices = h.devices;
    namespaces = h.namespaces;
    answer = r;
    requested = rw h.addresses e;
  }

  Ends-one :
      {A : Type 0} (cns podname : Text) (s : Node W) (r : Ret Ip) (am : AddressManager)
      → request_pod_ip parse_ip cns podname s.addresses ≡ done (r, am)
      → (o : Outcome (A × Node W))
      → Ends (λ a t. Keeps (get_net_ns cns podname) (record s { addresses = am }) t) o
      → Ends (λ a t. OneRequest parse_ip cns podname s t) o
  Ends-one cns podname s r am e (done (a, t)) h = Keeps-one cns podname s t r am e h
  Ends-one cns podname s r am e panic h = tt
  Ends-one cns podname s r am e stuck h = tt

  after_request :
      {A : Type 0} (cns podname : Text) (s : Node W) (f : Ret Ip → M (Node W) A)
      → ((r : Ret Ip) → IsLocal (get_net_ns cns podname) (f r))
      → (o : Outcome (Ret Ip × AddressManager))
      → request_pod_ip parse_ip cns podname s.addresses ≡ o
      → Ends (λ a t. OneRequest parse_ip cns podname s t) ((addr (λ am. o) >>= f) s)
  after_request cns podname s f h panic e = tt
  after_request cns podname s f h stuck e = tt
  after_request cns podname s f h (done (r, am)) e =
      Ends-one cns podname s r am e (f r (record s { addresses = am }))
        ((h r).at (record s { addresses = am }))

module _ {W : Type 0} (k : Kernel W) (rounds : ℕ) (cns podname : Text) (s : Node W) where
  -- When setting up a pod with the multi-runtime manager returns, whatever the machine answered,
  -- the devices and namespaces of all other names are as before, and the address manager is as
  -- one request for the pod left it.
  pub multi_runtime-init_pod_network-OneRequest :
      Ends
        (λ r t. OneRequest k.parse_ip cns podname s t)
        (MultiRuntime.init_pod_network k rounds cns podname s)
  unfolding MultiRuntime.init_pod_network
  multi_runtime-init_pod_network-OneRequest =
      after_request k cns podname s
        (λ r. MultiRuntime.bring_up k rounds (get_net_ns cns podname) (ip_or_empty r))
        (λ r. Laws.bring_up-IsLocal k rounds (get_net_ns cns podname) (ip_or_empty r))
        (request_pod_ip k.parse_ip cns podname s.addresses) refl

  -- When setting up a pod with the manager with localhost routing returns, whatever the machine
  -- answered, the devices and namespaces of all other names are as before, and the address
  -- manager is as one request for the pod left it.
  pub pod_local-init_pod_network-OneRequest :
      Ends
        (λ r t. OneRequest k.parse_ip cns podname s t)
        (PodLocal.init_pod_network k rounds cns podname s)
  unfolding PodLocal.init_pod_network
  pod_local-init_pod_network-OneRequest =
      after_request k cns podname s
        (λ r. PodLocal.bring_up k rounds (get_net_ns cns podname) (ip_or_empty r))
        (λ r. PodLocalLaws.bring_up-IsLocal k rounds (get_net_ns cns podname) (ip_or_empty r))
        (request_pod_ip k.parse_ip cns podname s.addresses) refl
