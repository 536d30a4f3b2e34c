-- ===== src/Network/Bpf/Attach.antt =====
-- The programs of pkg/network/EBPF.go that are attached to the bridges and links of a pod.
use feather_multiruntimenetw.Common.{
  ℕ, List, [], ◌∷◌, Option, none, some, M, Ret, ok, err, ◌>>=◌, ◌>>◌, pure, crash, if◌then◌else◌,
  get_elem?,
}
use feather_multiruntimenetw.Network.Ip.{Ip, u32}
use feather_multiruntimenetw.Network.Kernel.{Kernel, Link, Objects, key32, word}
use feather_multiruntimenetw.Network.Addresses.{AddressManager, is_ipv4}
use feather_multiruntimenetw.Network.Bpf.Load.{
  load_objects_tail_call_ipv4, load_objects_tail_call_ipv6,
  load_objects_translate_redirect_subpod_ipv4, load_objects_translate_redirect_subpod_ipv6,
  load_objects_split_lh_redirect_ipv4, load_objects_split_lh_redirect_ipv6,
  load_objects_split_generic_redirect_ipv4, load_objects_split_generic_redirect_ipv6,
}
use feather_multiruntimenetw.Network.Bpf.Routes.{attrs, call_ip2int}

-- The fields of the objects after a load that may have failed: nil then.
abbrev pub prog_of : Ret Objects → Option ℕ
prog_of (ok o) = some o.prog
prog_of (err e) = none

abbrev pub map_of : ℕ → Ret Objects → Option ℕ
map_of i (ok o) = get_elem? o.maps i
map_of i (err e) = none

-- `&l` after a call that logs its error: a pointer, which is not nil, to what may be nil.
abbrev pub link_of : Ret ℕ → Option ℕ
link_of (ok l) = some l
link_of (err e) = none

module _ {W : Type 0} (k : Kernel W) where
  open k use {map_put, prog_fd, attach_tcx}

  -- `loadToSubPodTC`
  unfoldable pub load_to_sub_pod_tc : AddressManager → M W (Option ℕ × Option ℕ)
  load_to_sub_pod_tc am = do
    objs ←
        if is_ipv4 am
        then load_objects_split_generic_redirect_ipv4 k
        else load_objects_split_generic_redirect_ipv6 k
    pure (prog_of objs, map_of 0 objs)

  -- `loadFromSubPodTC`
  unfoldable pub load_from_sub_pod_tc : AddressManager → M W (Option ℕ × Option ℕ)
  load_from_sub_pod_tc am = do
    objs ←
        if is_ipv4 am
        then load_objects_translate_redirect_subpod_ipv4 k
        else load_objects_translate_redirect_subpod_ipv6 k
    pure (prog_of objs, map_of 0 objs)

  -- `setupSubpodTC` under IPv4: a failed load and failed puts are only logged.
  setup_subpod_tc_ipv4 : Option Link → Ip → Option ℕ → Option ℕ → M W (Option ℕ × List (Option ℕ))
  setup_subpod_tc_ipv4 pod_if subnet from_sn to_sn = do
    objs ← load_objects_tail_call_ipv4 k
    to_fd ← prog_fd to_sn
    map_put (map_of 0 objs) (key32 0) (word (u32 to_fd))
    from_fd ← prog_fd from_sn
    map_put (map_of 0 objs) (key32 1) (word (u32 from_fd))
    addr ← call_ip2int subnet
    map_put (map_of 1 objs) (key32 0) (word addr)
    link ← attrs pod_if
    l ← attach_tcx link.index (prog_of objs)
    pure (link_of l, map_of 1 objs ∷ map_of 0 objs ∷ [])

  -- `setupSubpodTC` under IPv6: a failed load panics, and nothing is put into the maps.
  setup_subpod_tc_ipv6 : Option Link → M W (Option ℕ × List (Option ℕ))
  setup_subpod_tc_ipv6 pod_if = do
    objs ← load_objects_tail_call_ipv6 k
    elim objs [ err e ↦ crash | ok o ↦ pure tt ]
    link ← attrs pod_if
    l ← attach_tcx link.index (prog_of objs)
    pure (link_of l, map_of 1 objs ∷ map_of 0 objs ∷ [])

  -- `setupSubpodTC`
  unfoldable pub setup_subpod_tc :
      AddressManager → Option Link → Ip → Option ℕ → Option ℕ → M W (Option ℕ × List (Option ℕ))
  unfolding setup_subpod_tc_ipv4 setup_subpod_tc_ipv6
  setup_subpod_tc am pod_if subnet from_sn to_sn =
      if is_ipv4 am
      then setup_subpod_tc_ipv4 pod_if subnet from_sn to_sn
      else setup_subpod_tc_ipv6 pod_if

  -- `setupFromLhTC`, from the objects on; an error gives three nils.
  setup_from_lh : Option Link → Ip → Ret Objects → M W (Option ℕ × Option ℕ × Option ℕ)
  setup_from_lh pod_lh_if lh_ip (err e) = pure (none, none, none)
  setup_from_lh pod_lh_if lh_ip (ok objs) = do
    addr ← call_ip2int lh_ip
    put ← map_put (get_elem? objs.maps 1) (key32 0) (word addr)
    elim put [
      | err e ↦ pure (none, none, none)
      | ok _ ↦ do
        link ← attrs pod_lh_if
        l ← attach_tcx link.index (some objs.prog)
        elim l [
          | err e ↦ pure (none, none, none)
          | ok bpf_link ↦ pure (some bpf_link, get_elem? objs.maps 0, get_elem? objs.maps 1)
        ]
    ]

  -- `setupFromLhTC`
  unfoldable pub setup_from_lh_tc :
      AddressManager → Option Link → Ip → M W (Option ℕ × Option ℕ × Option ℕ)
  unfolding setup_from_lh
  setup_from_lh_tc am pod_lh_if lh_ip = do
    objs ←
        if is_ipv4 am
        then load_objects_split_lh_redirect_ipv4 k
        else load_objects_split_lh_redirect_ipv6 k
    setup_from_lh pod_lh_if lh_ip objs
