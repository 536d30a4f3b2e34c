-- ===== src/Tests/Samples.antt =====
-- Sample states: the addresses of a node and a machine that answers every call.
use feather_multiruntimenetw.Common.{
  ℕ, [], ◌∷◌, ◌++◌, Text, codes, Ret, ok, err, message, done, if◌then◌else◌, ltb, ◌==◌, nat_eq,
  text_eq, refl, arith, replicate, M, pure,
}
use feather_multiruntimenetw.Common.Decimal.{decimal}
use feather_multiruntimenetw.Network.Ip.{Ip}
use feather_multiruntimenetw.Network.Ipv4.{Ipv4AddressManager}
use feather_multiruntimenetw.Network.Ipv4.Invariant.{IsValid}
use feather_multiruntimenetw.Network.Ipv6.{Ipv6AddressManager}
use feather_multiruntimenetw.Network.Addresses.{v4}
use feather_multiruntimenetw.Network.Kernel.{Kernel, Link, MapValue, key32, split4}
use feather_multiruntimenetw.Network.Devices.{Node}

-- 10.1.2.0/24, with the blocks of two pods taken.
abbrev pub subnet : Ipv4AddressManager
subnet = record {
  base_subnet_ip = 167838208;
  max_subnet_ip = 167838463;
  subnet_mask = 255 ∷ 255 ∷ 255 ∷ 0 ∷ [];
  sub_ips_per_pod = 8;
  gateway_ip = 167838209;
  used_pod_addresses = (167838216, codes "a_b") ∷ (167838232, codes "a_c") ∷ [];
}

pub subnet-IsValid : IsValid subnet
subnet-IsValid = record {
  step = refl;
  below = omega arith;
  fits = omega arith;
  blocks = ((0, refl, omega arith), ((2, refl, omega arith), tt));
}

-- The same subnet with room for one block, which is taken.
abbrev pub full_subnet : Ipv4AddressManager
full_subnet = record subnet {
  max_subnet_ip = 167838220;
  used_pod_addresses = (167838216, codes "a_b") ∷ [];
}

abbrev pub subnet6 : Ipv6AddressManager
subnet6 = record {
  base_subnet_ip = codes "fd00";
  subnet_reserved_ips = 16;
  sub_ips_per_pod = 16;
  max_subnet_ip = 65535;
  subnet_mask = 112;
  used_pod_addresses = (codes "fd00:20", codes "a_b") ∷ [];
}

abbrev pub sample_link : Link
sample_link = record { name = codes "l"; index = 3; hardware_addr = replicate 6 1 }

-- The state is that of one route map.
abbrev pub Routes : Type 0
Routes = ℕ → MapValue

abbrev answered : M Routes (Ret (Unit {0}))
answered = pure (ok tt)

abbrev parsed : Text → Ret ℕ
parsed [] = err (message [])
parsed (c ∷ _) = if c == b'<' then err (message []) else ok 0

abbrev text_of : Ip → Text
text_of [] = codes "<nil>"
text_of (b ∷ []) = decimal b
text_of (b ∷ c ∷ ip) = decimal b ++ codes "." ++ text_of (c ∷ ip)

abbrev pub sample_kernel : Kernel Routes
sample_kernel = record {
  link_add = λ name kind. answered;
  link_by_name = λ name. pure (ok sample_link);
  link_set_up = λ link. answered;
  link_set_master = λ link master. answered;
  link_set_ns_fd = λ link ns. answered;
  link_del = λ link. answered;
  parse_addr = λ s. pure (parsed s);
  addr_add = λ link a. answered;
  parse_ip_net = λ s. pure (ok (record { ip = []; mask = [] }));
  route_add = λ r. answered;
  route_del = λ r. answered;
  netns_get = pure (ok 4);
  netns_new_named = λ name. pure (ok 5);
  netns_delete_named = λ name. answered;
  netns_set = λ ns. answered;
  load_collection_spec = λ name. pure (ok 6);
  load_and_assign = λ spec maps prog. pure (ok (record { maps = 7 ∷ 8 ∷ []; prog = 9 }));
  map_put = λ m key v w. elim key [
    | key32 i ↦ done (ok tt, λ j. if i == j then v else w j)
    | _ ↦ done (ok tt, w)
  ];
  map_lookup = λ m key w. elim key [
    | key32 i ↦ if ltb i 8 then done (ok (w i), w) else done (err (message []), w)
    | _ ↦ done (err (message []), w)
  ];
  prog_fd = λ p. pure 9;
  attach_tcx = λ index prog. pure (ok 1);
  rand_intn = λ n. pure 0;
  rand_read = λ n. pure (ok (replicate n 2));
  shell_output = λ s. pure (ok (codes "1 dev eth0"));
  interface_by_name = λ s. pure (ok sample_link);
  ip_string = text_of;
  parse_ip = λ s. replicate 16 0;
}

-- The first entry is active.
abbrev pub one_route : Routes
one_route i = split4 (record {
  active = if i == 0 then 1 else 0;
  target_if_index = 0;
  d_addr = 0;
  s_mac = [];
  d_mac = [];
})

abbrev pub sample_node : Node Routes
sample_node = record {
  pod_namespaces = [];
  pod_devices = [];
  addresses = v4 subnet;
  world = one_route;
}

-- A node with no address left.
abbrev pub full_node : Node Routes
full_node = record sample_node { addresses = v4 full_subnet }
