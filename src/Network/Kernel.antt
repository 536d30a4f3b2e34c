-- ===== src/Network/Kernel.antt =====
-- What the network code takes from code that is not in the repository: netlink, netns, cilium's
-- ebpf, the random numbers, the shell, and the texts of addresses. Each call works on a state of
-- the machine, `W`, and may return an error, panic or never return. A pointer or handle is a
-- number, and a nil pointer or interface is `none`.
use feather_multiruntimenetw.Common.{ℕ, List, Option, Text, M, Ret}
use feather_multiruntimenetw.Network.Ip.{Ip, IpMask}

-- What the code reads of a `netlink.Link`: the attributes Name, Index and HardwareAddr.
pub record Link : Type 0 where
  pub name : Text
  pub index : ℕ
  pub hardware_addr : List ℕ

-- The kinds of link that the code adds; a veth pair with the name of its peer.
pub data LinkKind : Type 0 where
  bridge tuntap : LinkKind
  veth : Text → LinkKind

pub record IpNet : Type 0 where
  pub ip : Ip
  pub mask : IpMask

-- The fields of `netlink.Route` that the code sets.
pub record NetRoute : Type 0 where
  pub dst : Option IpNet
  pub link_index : ℕ
  pub gw : Ip

-- `SplitRouteIPv4` and `SplitRouteIPv6`, which differ in the type of the address.
pub record SplitRoute (A : Type 0) : Type 0 where
  pub active : ℕ
  pub target_if_index : ℕ
  pub d_addr : A
  pub s_mac : List ℕ
  pub d_mac : List ℕ

-- `SplitLhRouteIPv4` and `SplitLhRouteIPv6`.
pub record SplitLhRoute (A : Type 0) : Type 0 where
  pub active : ℕ
  pub target_if_index : ℕ
  pub s_addr : A
  pub d_addr : A
  pub s_mac : List ℕ
  pub d_mac : List ℕ

pub record RedirectRoute : Type 0 where
  pub target_if_index : ℕ
  pub s_mac : List ℕ
  pub d_mac : List ℕ

-- What is put into a map of an eBPF program.
pub data MapValue : Type 0 where
  split4 : SplitRoute ℕ → MapValue
  split6 : SplitRoute (List ℕ) → MapValue
  split_lh4 : SplitLhRoute ℕ → MapValue
  split_lh6 : SplitLhRoute (List ℕ) → MapValue
  redirect : RedirectRoute → MapValue
  word : ℕ → MapValue

-- A key of 32 bits, or of sixteen bytes.
pub data MapKey : Type 0 where
  key32 : ℕ → MapKey
  key128 : List ℕ → MapKey

-- What `LoadAndAssign` fills in: the maps by the order of their tags, and the program.
pub record Objects : Type 0 where
  pub maps : List ℕ
  pub prog : ℕ

pub record Kernel (W : Type 0) : Type 0 where
  pub link_add : Text → LinkKind → M W (Ret (Unit {0}))
  pub link_by_name : Text → M W (Ret Link)
  pub link_set_up : Option Link → M W (Ret (Unit {0}))
  pub link_set_master : Option Link → Option Link → M W (Ret (Unit {0}))
  pub link_set_ns_fd : Option Link → ℕ → M W (Ret (Unit {0}))
  pub link_del : Option Link → M W (Ret (Unit {0}))
  pub parse_addr : Text → M W (Ret ℕ)
  pub addr_add : Option Link → Option ℕ → M W (Ret (Unit {0}))
  pub parse_ip_net : Text → M W (Ret IpNet)
  pub route_add : NetRoute → M W (Ret (Unit {0}))
  pub route_del : NetRoute → M W (Ret (Unit {0}))
  pub netns_get : M W (Ret ℕ)
  pub netns_new_named : Text → M W (Ret ℕ)
  pub netns_delete_named : Text → M W (Ret (Unit {0}))
  pub netns_set : ℕ → M W (Ret (Unit {0}))
  pub load_collection_spec : Text → M W (Ret ℕ)
  pub load_and_assign : ℕ → List Text → Text → M W (Ret Objects)
  pub map_put : Option ℕ → MapKey → MapValue → M W (Ret (Unit {0}))
  pub map_lookup : Option ℕ → MapKey → M W (Ret MapValue)
  pub prog_fd : Option ℕ → M W ℕ
  pub attach_tcx : ℕ → Option ℕ → M W (Ret ℕ)
  pub rand_intn : ℕ → M W ℕ
  pub rand_read : ℕ → M W (Ret (List ℕ))
  pub shell_output : Text → M W (Ret Text)
  pub interface_by_name : Text → M W (Ret Link)
  pub ip_string : Ip → Text
  pub parse_ip : Text → Ip
