-- ===== src/Network/PodLocal/Laws.antt =====
-- What InitPodNetwork and CreateVMTun of pkg/network/MultiRuntimePodLocalNetworking.go leave alone.
use feather_multiruntimenetw.Common.{ℕ, List, Option, none, some, Text, text_eq}
use feather_multiruntimenetw.Network.Ip.{Ip}
use feather_multiruntimenetw.Network.Kernel.{Kernel, Link}
use feather_multiruntimenetw.Network.Devices.{get_net_ns}
use feather_multiruntimenetw.Network.Devices.Frame.{IsLocal, local}
use feather_multiruntimenetw.Network.MultiRuntime.Laws.{route_pod-IsLocal, must-IsLocal}
use feather_multiruntimenetw.Network.PodLocal.{
  keep_localhost, attach_localhost_bpf_programs, update_localhost_bpf_maps, create_vm_tun,
  record_vm, bring_up,
}

module _ {W : Type 0} (k : Kernel W) where
  keep_localhost-IsLocal :
      (name : Text) (ip : Ip) (r : Option ℕ × Option ℕ × Option ℕ)
      → IsLocal name (keep_localhost k name ip r)
  unfolding keep_localhost
  keep_localhost-IsLocal name ip (none, m, n) = search local
  keep_localhost-IsLocal name ip (some l, m, n) = search local depth 12

  attach-IsLocal :
      (name : Text) (lh_ip ip : Ip) (if_name : Text)
      → IsLocal name (attach_localhost_bpf_programs k name lh_ip ip if_name)
  unfolding attach_localhost_bpf_programs
  attach-IsLocal name lh_ip ip if_name = search (local, keep_localhost-IsLocal) depth 12

  update-IsLocal :
      (name : Text) (ip : Ip) (mac : List ℕ) (m : Option ℕ)
      → IsLocal name (update_localhost_bpf_maps k name ip mac m)
  unfolding update_localhost_bpf_maps
  update-IsLocal name ip mac m = search local depth 12

module _ {W : Type 0} (k : Kernel W) (rounds : ℕ) where
  pub bring_up-IsLocal : (name : Text) (pod_ip : Ip) → IsLocal name (bring_up k rounds name pod_ip)
  unfolding bring_up
  bring_up-IsLocal name pod_ip =
      search (local, must-IsLocal, route_pod-IsLocal, attach-IsLocal, update-IsLocal) depth 40

  record_vm-IsLocal :
      (name if_name : Text) (vm_ip : Ip) (tap : Link)
      → IsLocal name (record_vm k rounds name if_name vm_ip tap)
  unfolding record_vm
  record_vm-IsLocal name if_name vm_ip tap = search (local, attach-IsLocal, update-IsLocal) depth 20

  pub create_vm_tun-IsLocal :
      (cns podname containername : Text)
      → IsLocal (get_net_ns cns podname) (create_vm_tun k rounds cns podname containername)
  unfolding create_vm_tun
  create_vm_tun-IsLocal cns podname containername = search (local, record_vm-IsLocal) depth 20
