-- ===== src/Tests/Maps.antt =====
-- Retries and the search for a free entry of a route map.
use feather_multiruntimenetw.Common.{
  ℕ, ◌+◌, ◌≡◌, ◌≢◌, refl, some, Ret, ok, err, message, done, [], M, arith, ◌==◌, nat_eq,
  if◌then◌else◌, beq_refl, beq_ne,
}
use feather_multiruntimenetw.Network.Kernel.{word}
use feather_multiruntimenetw.Network.Bpf.Routes.{
  put_next_split_route_obj, max_routes, put_from, is_free, active,
}
use feather_multiruntimenetw.Network.Bpf.Routes.Slots.{
  ArrayMap, Searched, FirstFree, put_next_split_route_obj-Searched, put_next_split_route_obj-look,
}
use feather_multiruntimenetw.Network.Links.Retry.{retry, at_once, later, retry_lem}
use feather_multiruntimenetw.Tests.Samples.{Routes, sample_kernel, one_route}

-- A call that fails twice and then gives 7.
abbrev third_time : M ℕ (Ret ℕ)
third_time w = if w == 2 then done (ok 7, w) else done (err (message []), w + 1)

retry_lem_example : retry 3 third_time 0 ≡ done (7, 2)
retry_lem_example =
    retry_lem 3 third_time 7 2 (omega arith) (later refl (later refl (at_once refl)))

sample_map : ArrayMap sample_kernel (some 7) 8
sample_map = record {
  look = λ w i. w i;
  put_state = λ w i v j. if i == j then v else w j;
  lookup_in = λ w i h. ground arith;
  put_in = λ w i v h. refl;
  look-put_self = λ w i v h. rw (beq_refl i);
  look-put_ne = λ w i j v h ne. rw (beq_ne i j ne);
}

put_next_split_route_obj-Searched_example :
    Searched sample_kernel
      (some 7)
      8
      sample_map
      one_route
      0
      max_routes
      (word 5)
      (put_next_split_route_obj sample_kernel (some 7) (word 5) one_route)
put_next_split_route_obj-Searched_example =
    put_next_split_route_obj-Searched sample_kernel (some 7) 8 sample_map (word 5) one_route
      (omega arith)

-- The route goes to the second entry.
abbrev two_routes : Routes
two_routes j = if 1 == j then word 5 else one_route j

put_next_split_route_obj-look_example :
    (j : ℕ) × FirstFree sample_kernel (some 7) 8 sample_map one_route 0 j
    × (two_routes j ≡ word 5)
    × ((n : ℕ) → n ≢ j → two_routes n ≡ one_route n)
unfolding put_next_split_route_obj put_from is_free active sample_map
put_next_split_route_obj-look_example =
    put_next_split_route_obj-look sample_kernel (some 7) 8 sample_map (word 5) one_route two_routes
      (omega arith) refl
