-- ===== src/Network/Bpf/Load.antt =====
-- The loaders of pkg/network/EBPF.go: a collection from its object file, and its maps and
-- program by their tags.
use feather_multiruntimenetw.Common.{
  List, [], ◌∷◌, Text, codes, M, Ret, ok, err, wrapped, ◌>>=◌, pure,
}
use feather_multiruntimenetw.Network.Kernel.{Kernel, Objects}

module _ {W : Type 0} (k : Kernel W) where
  open k use {load_collection_spec, load_and_assign}

  -- The body that all the loaders share, `fmt.Errorf("can't load bpf: %w", err)` included.
  unfoldable pub load_objects : Text → List Text → Text → M W (Ret Objects)
  load_objects file map_tags prog_tag = do
    spec ← load_collection_spec file
    elim spec [
      | err e ↦ pure (err (wrapped (codes "can't load bpf") e))
      | ok s ↦ load_and_assign s map_tags prog_tag
    ]

  -- `loadObjectsBpfTailCallIpv4TC`: the jump table and the subnet map
  unfoldable pub load_objects_tail_call_ipv4 : M W (Ret Objects)
  unfolding load_objects
  load_objects_tail_call_ipv4 =
      load_objects (codes "bpf_tail_call_ipv4.o") (codes "jump_table" ∷ codes "ip_map" ∷ [])
        (codes "lh_tails_ipv4")

  -- `loadObjectsBpfTailCallIpv6TC`
  unfoldable pub load_objects_tail_call_ipv6 : M W (Ret Objects)
  unfolding load_objects
  load_objects_tail_call_ipv6 =
      load_objects (codes "bpf_tail_call_ipv6_tc.o") (codes "jump_table" ∷ codes "ip_map" ∷ [])
        (codes "lh_tails_ipv6")

  -- `loadObjectsTranslateRedirectSubpodIpv4TC`
  unfoldable pub load_objects_translate_redirect_subpod_ipv4 : M W (Ret Objects)
  unfolding load_objects
  load_objects_translate_redirect_subpod_ipv4 =
      load_objects (codes "translate_redirect_subpod_ipv4_tc.o") (codes "tc_redirect_map" ∷ [])
        (codes "tc_subpodredirect")

  -- `loadObjectsTranslateRedirectSubpodIpv6TC`
  unfoldable pub load_objects_translate_redirect_subpod_ipv6 : M W (Ret Objects)
  unfolding load_objects
  load_objects_translate_redirect_subpod_ipv6 =
      load_objects (codes "translate_redirect_subpod_ipv6_tc.o") (codes "tc_redirect_map" ∷ [])
        (codes "tc_subpodredirect")

  -- `loadObjectsBpfSplitLhRedirectIPv4TC`: the route map and the map of localhost's address
  unfoldable pub load_objects_split_lh_redirect_ipv4 : M W (Ret Objects)
  unfolding load_objects
  load_objects_split_lh_redirect_ipv4 =
      load_objects (codes "split_redirect_lh_ipv4_tc.o")
        (codes "tc_lh_map" ∷ codes "tc_lhaddr_map" ∷ []) (codes "tc_lh2split")

  -- `loadObjectsBpfSplitLhRedirectIPv6TC`
  unfoldable pub load_objects_split_lh_redirect_ipv6 : M W (Ret Objects)
  unfolding load_objects
  load_objects_split_lh_redirect_ipv6 =
      load_objects (codes "split_redirect_lh_ipv6_tc.o")
        (codes "tc_lh_map" ∷ codes "tc_lhaddr_map" ∷ []) (codes "tc_lh2split")

  -- `loadObjectsBpfSplitGenericRedirectIPv4TC`
  unfoldable pub load_objects_split_generic_redirect_ipv4 : M W (Ret Objects)
  unfolding load_objects
  load_objects_split_generic_redirect_ipv4 =
      load_objects (codes "split_redirect_generic_ipv4_tc.o") (codes "tc_split_map" ∷ [])
        (codes "tc_generic2split")

  -- `loadObjectsBpfSplitGenericRedirectIPv6TC`
  unfoldable pub load_objects_split_generic_redirect_ipv6 : M W (Ret Objects)
  unfolding load_objects
  load_objects_split_generic_redirect_ipv6 =
      load_objects (codes "split_redirect_generic_ipv6_tc.o") (codes "tc_split_map" ∷ [])
        (codes "tc_generic2split")
