-- ===== src/Network/Pods/Exhaustion.antt =====
-- What happens in the two multi-runtime managers when no address is left: InitPodNetwork only
-- logs the error, and goes on with an empty address.
use feather_multiruntimenetw.Common.{
  ℕ, [], ◌++◌, some, Text, text_eq, codes, M, Ret, ok, err, Error, Outcome, done, Ends, ◌>>=◌, ◌>>◌,
  pure, or_return,
}
use feather_multiruntimenetw.Common.Ensures.{Ensures, Ensures-seq, Ensures-bind}
use feather_multiruntimenetw.Common.Decimal.{decimal}
use feather_multiruntimenetw.Network.Ip.{Ip}
use feather_multiruntimenetw.Network.Kernel.{Kernel, Link, bridge}
use feather_multiruntimenetw.Network.Addresses.{AddressManager, request_pod_ip}
use feather_multiruntimenetw.Network.Devices.{Node, get_net_ns, kern, addr}
use feather_multiruntimenetw.Network.Links.{
  setup_pod_bridge, try_get_link, try_set_link_up, rand_string_runes,
}
use feather_multiruntimenetw.Network.MultiRuntime
use feather_multiruntimenetw.Network.MultiRuntime.{must, ip_or_empty}
use feather_multiruntimenetw.Network.PodLocal

-- The call returned an error.
abbrev pub IsErr : {A : Type 0} → Ret A → Type 0
IsErr (ok a) = ⊥
IsErr (err e) = Unit

-- What the code relies on of the machine: the text that an empty address is printed as, which
-- is "<nil>", is no address to `netlink.ParseAddr`.
abbrev pub RefusesEmpty : {W : Type 0} → Kernel W → Type 0
RefusesEmpty {W} k =
    (w : W) → Ends (λ r w'. IsErr r) (k.parse_addr (k.ip_string [] ++ codes "/" ++ decimal 126) w)

module _ {W : Type 0} {A : Type 0} where
  Ensures-IsErr : (e : Error) → Ensures {S = W} (λ (r : Ret A) w. IsErr r) (pure (err e))
  Ensures-IsErr e = record { at = λ s. tt }

module _ {W : Type 0} (k : Kernel W) (rounds : ℕ) (refuses : RefusesEmpty k) where
  stops :
      {A B : Type 0} (r : Ret A) (f : A → M W (Ret B))
      → IsErr r
      → Ensures (λ r w. IsErr r) (or_return r f)
  stops (ok a) f h = absurd h
  stops (err e) f h = Ensures-IsErr e

  or_error :
      {A B : Type 0} (r : Ret A) (f : A → M W (Ret B))
      → ((a : A) → Ensures (λ r w. IsErr r) (f a))
      → Ensures (λ r w. IsErr r) (or_return r f)
  or_error (ok a) f h = h a
  or_error (err e) f h = Ensures-IsErr e

  setup_pod_bridge_refused :
      (id : Text) → Ensures (λ r w. IsErr r) (setup_pod_bridge k rounds id [])
  unfolding setup_pod_bridge
  setup_pod_bridge_refused id = Ensures-bind (k.link_add (codes "pod" ++ id) bridge) λ added.
      or_error added _ λ _. Ensures-bind (try_get_link k rounds (codes "pod" ++ id)) λ dev.
        Ensures-seq {A = Ret ℕ} (λ r. IsErr r)
          {m = k.parse_addr (k.ip_string [] ++ codes "/" ++ decimal 126)} (record { at = refuses })
          λ r h.
            stops r
              (λ a.
                k.addr_add (some dev) (some a) >> (try_set_link_up k rounds dev >> pure (ok dev)))
              h

  fails :
      {B : Type 0} (f : Link → M (Node W) B) (s : Node W) (o : Outcome (Ret Link × W))
      → Ends (λ r w. IsErr r) o
      → Ends (λ b t. ⊥) ((kern (λ w. o) >>= λ r. must r >>= f) s)
  fails f s (done (ok l, w)) h = absurd h
  fails f s (done (err e, w)) h = tt
  fails f s Outcome.panic h = tt
  fails f s Outcome.stuck h = tt

  -- A call of the machine that returns an error, whose link is then used.
  crashes :
      {B : Type 0} (m : M W (Ret Link)) (f : Link → M (Node W) B)
      → Ensures (λ r w. IsErr r) m
      → Ensures (λ b t. ⊥) (kern m >>= λ r. must r >>= f)
  crashes m f h = record { at = λ s. fails f s (m s.world) (h.at s.world) }

  multi_runtime_crashes :
      (name : Text) → Ensures (λ r t. ⊥) (MultiRuntime.bring_up k rounds name [])
  unfolding MultiRuntime.bring_up
  multi_runtime_crashes name =
      Ensures-bind (kern (rand_string_runes k 4))
        λ runes. crashes (setup_pod_bridge k rounds runes []) _ (setup_pod_bridge_refused runes)

  pod_local_crashes : (name : Text) → Ensures (λ r t. ⊥) (PodLocal.bring_up k rounds name [])
  unfolding PodLocal.bring_up
  pod_local_crashes name =
      Ensures-bind (kern (rand_string_runes k 4))
        λ runes. crashes (setup_pod_bridge k rounds runes []) _ (setup_pod_bridge_refused runes)

module _ {W : Type 0} where
  after_failed_request :
      {A : Type 0} (f : Ret Ip → M (Node W) A) (s : Node W) (o : Outcome (Ret Ip × AddressManager))
      → Ends (λ r am. IsErr r) o
      → ((e : Error) → Ensures (λ a t. ⊥) (f (err e)))
      → Ends (λ a t. ⊥) ((addr (λ am. o) >>= f) s)
  after_failed_request f s (done (ok ip, am)) h g = absurd h
  after_failed_request f s (done (err e, am)) h g = (g e).at (record s { addresses = am })
  after_failed_request f s Outcome.panic h g = tt
  after_failed_request f s Outcome.stuck h g = tt

module _ {W : Type 0} (k : Kernel W) (rounds : ℕ) (cns podname : Text) (s : Node W) where
  -- If the machine refuses the text of an empty address and the address manager, where it returns,
  -- refuses the request, setting up a pod with the multi-runtime manager does not return, not even
  -- with an error.
  pub multi_runtime-init_pod_network-refused :
      RefusesEmpty k
      → Ends (λ r am. IsErr r) (request_pod_ip k.parse_ip cns podname s.addresses)
      → Ends (λ r t. ⊥) (MultiRuntime.init_pod_network k rounds cns podname s)
  unfolding MultiRuntime.init_pod_network
  multi_runtime-init_pod_network-refused refuses h =
      after_failed_request
        (λ r. MultiRuntime.bring_up k rounds (get_net_ns cns podname) (ip_or_empty r)) s
        (request_pod_ip k.parse_ip cns podname s.addresses) h
        λ e. multi_runtime_crashes k rounds refuses (get_net_ns cns podname)

  -- If the machine refuses the text of an empty address and the address manager, where it returns,
  -- refuses the request, setting up a pod with the manager with localhost routing does not return,
  -- not even with an error.
  pub pod_local-init_pod_network-refused :
      RefusesEmpty k
      → Ends (λ r am. IsErr r) (request_pod_ip k.parse_ip cns podname s.addresses)
      → Ends (λ r t. ⊥) (PodLocal.init_pod_network k rounds cns podname s)
  unfolding PodLocal.init_pod_network
  pod_local-init_pod_network-refused refuses h =
      after_failed_request
        (λ r. PodLocal.bring_up k rounds (get_net_ns cns podname) (ip_or_empty r)) s
        (request_pod_ip k.parse_ip cns podname s.addresses) h
        λ e. pod_local_crashes k rounds refuses (get_net_ns cns podname)
