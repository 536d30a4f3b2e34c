-- ===== src/Network/Bpf/Routes.antt =====
-- The routes of pkg/network/EBPF.go and the search for a free entry of a map. `[6]uint8(mac)` and
-- `[16]byte(ip)` panic on a slice that is too short, and drop what is beyond the length.
pub mod Slots
use feather_multiruntimenetw.Common.{
  ℕ, zero, suc, ◌+◌, ◌%◌, ◌^◌, Bool, true, false, List, [], ◌∷◌, Option, none, some, Text, codes, M,
  Ret, ok, err, message, ◌>>=◌, pure, crash, if◌then◌else◌, ltb, ◌==◌, nat_eq, take, length,
}
use feather_multiruntimenetw.Network.Ip.{Ip, ip2int, u32}
use feather_multiruntimenetw.Network.Kernel.{
  Kernel, Link, MapValue, split4, split6, split_lh4, split_lh6, redirect, word, MapKey, key32,
  SplitRoute, SplitLhRoute, RedirectRoute,
}
use feather_multiruntimenetw.Network.Addresses.{AddressManager, is_ipv4}

-- The number of entries of a route map, `MaxIPv4IPsPerPod`, under both versions.
abbrev pub max_routes : ℕ
max_routes = 8

module _ {W : Type 0} where
  -- A conversion of a slice to an array of `n` bytes.
  abbrev pub to_array : ℕ → List ℕ → M W (List ℕ)
  to_array n bytes = if ltb (length bytes) n then crash else pure (take n bytes)

  -- A call of `ip2int`, with its panic.
  abbrev pub call_ip2int : Ip → M W ℕ
  call_ip2int ip = elim (ip2int ip) [ none ↦ crash | some n ↦ pure n ]

  -- The attributes of a link; a nil link panics.
  abbrev pub attrs : Option Link → M W Link
  attrs none = crash
  attrs (some l) = pure l

  -- `makeSplitRouteMapObjectMac`
  unfoldable pub make_split_route_map_object_mac :
      AddressManager → Option Link → List ℕ → Ip → M W MapValue
  make_split_route_map_object_mac am src_if target_if destination =
      if is_ipv4 am
      then (do
        src ← attrs src_if
        d_addr ← call_ip2int destination
        s_mac ← to_array 6 src.hardware_addr
        d_mac ← to_array 6 target_if
        pure (
            split4 (record {
              active = 1;
              target_if_index = u32 src.index;
              d_addr = d_addr;
              s_mac = s_mac;
              d_mac = d_mac;
            })))
      else (do
        src ← attrs src_if
        d_addr ← to_array 16 destination
        s_mac ← to_array 6 src.hardware_addr
        d_mac ← to_array 6 target_if
        pure (
            split6 (record {
              active = 1;
              target_if_index = u32 src.index;
              d_addr = d_addr;
              s_mac = s_mac;
              d_mac = d_mac;
            })))

  -- `makeSplitRouteMapObject`
  unfoldable pub make_split_route_map_object :
      AddressManager → Option Link → Option Link → Ip → M W MapValue
  unfolding make_split_route_map_object_mac
  make_split_route_map_object am src_if target_if destination = do
    target ← attrs target_if
    make_split_route_map_object_mac am src_if target.hardware_addr destination

  -- `makeSplitLhRouteMapObject`
  unfoldable pub make_split_lh_route_map_object :
      AddressManager → Option Link → List ℕ → Ip → Ip → M W MapValue
  make_split_lh_route_map_object am src_if target_if src dest =
      if is_ipv4 am
      then (do
        link ← attrs src_if
        d_addr ← call_ip2int dest
        s_addr ← call_ip2int src
        s_mac ← to_array 6 link.hardware_addr
        d_mac ← to_array 6 target_if
        pure (
            split_lh4 (record {
              active = 1;
              target_if_index = u32 link.index;
              s_addr = s_addr;
              d_addr = d_addr;
              s_mac = s_mac;
              d_mac = d_mac;
            })))
      else (do
        link ← attrs src_if
        d_addr ← to_array 16 dest
        s_addr ← to_array 16 src
        s_mac ← to_array 6 link.hardware_addr
        d_mac ← to_array 6 target_if
        pure (
            split_lh6 (record {
              active = 1;
              target_if_index = u32 link.index;
              s_addr = s_addr;
              d_addr = d_addr;
              s_mac = s_mac;
              d_mac = d_mac;
            })))

-- The field Active of an item that was looked up. The values that have none are in no map that
-- is searched.
unfoldable pub active : MapValue → ℕ
active (split4 r) = r.active
active (split6 r) = r.active
active (split_lh4 r) = r.active
active (split_lh6 r) = r.active
active (redirect r) = 1
active (word n) = 1

-- `err == nil && item.Active == 0`
unfoldable pub is_free : Ret MapValue → Bool
unfolding active
is_free (err e) = false
is_free (ok item) = active item == 0

module _ {W : Type 0} (k : Kernel W) where
  open k use {map_lookup, map_put}

  -- The loop of the two functions below, `rounds` entries from entry `i` on.
  unfoldable pub put_from : ℕ → ℕ → Option ℕ → MapValue → M W (Ret (Unit {0}))
  put_from zero i bpf_map route_obj =
      pure (err (message (codes "No more space in map to put routeobject")))
  put_from (suc rounds) i bpf_map route_obj =
      let rest = put_from rounds (suc i) bpf_map route_obj in
      map_lookup bpf_map (key32 i) >>= λ item.
      if is_free item then map_put bpf_map (key32 i) route_obj else rest

  -- `putNextSplitRouteObj`
  unfoldable pub put_next_split_route_obj : Option ℕ → MapValue → M W (Ret (Unit {0}))
  put_next_split_route_obj = put_from max_routes 0

  -- `putNextLhSplitRouteObj`
  unfoldable pub put_next_lh_split_route_obj : Option ℕ → MapValue → M W (Ret (Unit {0}))
  put_next_lh_split_route_obj = put_from max_routes 0
