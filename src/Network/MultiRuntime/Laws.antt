-- ===== src/Network/MultiRuntime/Laws.antt =====
-- What the calls of pkg/network/MultiRuntimeNetworking.go leave alone.
use feather_multiruntimenetw.Common.{ℕ, Option, none, some, Text, text_eq, Ret, ok, err}
use feather_multiruntimenetw.Network.Ip.{Ip}
use feather_multiruntimenetw.Network.Kernel.{Kernel, Link}
use feather_multiruntimenetw.Network.Devices.{get_net_ns}
use feather_multiruntimenetw.Network.Devices.Frame.{IsLocal, IsLocal-pure, IsLocal-crash, local}
use feather_multiruntimenetw.Network.Routing.{init_from_subpod_routing, update_subpod_routing}
use feather_multiruntimenetw.Network.MultiRuntime.{
  create_vm_tun, record_vm, route_pod, stop_pod_network, must, bring_up,
}

module _ {W : Type 0} (k : Kernel W) where
  init_from-IsLocal :
      (link : Link) (name : Text) → IsLocal name (init_from_subpod_routing k link name)
  unfolding init_from_subpod_routing
  init_from-IsLocal link name = search local depth 20

  update-IsLocal :
      (link : Link) (name : Text) (ip : Ip) → IsLocal name (update_subpod_routing k link ip)
  unfolding update_subpod_routing
  update-IsLocal link name ip = search local depth 12

pub must-IsLocal : {W A : Type 0} {name : Text} (r : Ret A) → IsLocal {W = W} name (must r)
must-IsLocal (ok a) = IsLocal-pure a
must-IsLocal (err e) = IsLocal-crash

module _ {W : Type 0} (k : Kernel W) (rounds : ℕ) where
  pub route_pod-IsLocal :
      (name : Text) (pod_link cont_if : Link) (ip : Ip) (nsid : ℕ)
      → IsLocal name (route_pod k rounds name pod_link cont_if ip nsid)
  unfolding route_pod
  route_pod-IsLocal name pod_link cont_if ip nsid =
      search (local, init_from-IsLocal, update-IsLocal) depth 30

  pub bring_up-IsLocal : (name : Text) (pod_ip : Ip) → IsLocal name (bring_up k rounds name pod_ip)
  unfolding bring_up
  bring_up-IsLocal name pod_ip = search (local, must-IsLocal, route_pod-IsLocal) depth 40

  record_vm-IsLocal :
      (name if_name : Text) (vm_ip : Ip) (tap : Option Link)
      → IsLocal name (record_vm k rounds name if_name vm_ip tap)
  unfolding record_vm
  record_vm-IsLocal name if_name vm_ip none = search local
  record_vm-IsLocal name if_name vm_ip (some tap) = search local depth 20

  pub create_vm_tun-IsLocal :
      (cns podname containername : Text)
      → IsLocal (get_net_ns cns podname) (create_vm_tun k rounds cns podname containername)
  unfolding create_vm_tun
  create_vm_tun-IsLocal cns podname containername = search (local, record_vm-IsLocal) depth 20

  pub stop_pod_network-IsLocal :
      (cns podname : Text) (name : Text) → IsLocal name (stop_pod_network k rounds cns podname)
  unfolding stop_pod_network
  stop_pod_network-IsLocal cns podname name = search local depth 20
