-- ===== src/Network/Bpf/Routes/Slots.antt =====
-- The search for a free entry of a route map (pkg/network/EBPF.go, putNextSplitRouteObj and
-- putNextLhSplitRouteObj), over maps that behave as eBPF arrays do.
use feather_multiruntimenetw.Common.{
  ℕ, zero, suc, ◌+◌, ◌<◌, ◌≤◌, ◌≡◌, refl, sym, ◌∙◌, ◌≢◌, ◌⊎◌, inl, inr, true, false, Option, codes,
  Ret, ok, err, Error, message, Outcome, done, ◌>>=◌, Bool-cases, arith, subst, ℕ_discrete,
}
use feather_multiruntimenetw.Network.Kernel.{Kernel, key32, MapValue}
use feather_multiruntimenetw.Network.Bpf.Routes.{
  active, is_free, put_from, put_next_split_route_obj, max_routes,
}

-- What the code relies on for the map `m`: it holds `size` entries, which `look` reads off the
-- state of the machine; a lookup reads an entry and fails out of range; a put into range
-- replaces that entry alone.
pub record ArrayMap {W : Type 0} (k : Kernel W) (m : Option ℕ) (size : ℕ) : Type 0 where
  pub look : W → ℕ → MapValue
  pub put_state : W → ℕ → MapValue → W
  pub lookup_in : (w : W) (i : ℕ) → i < size → k.map_lookup m (key32 i) w ≡ done (ok (look w i), w)
  pub put_in :
      (w : W) (i : ℕ) (v : MapValue)
      → i < size
      → k.map_put m (key32 i) v w ≡ done (ok tt, put_state w i v)
  pub look-put_self : (w : W) (i : ℕ) (v : MapValue) → i < size → look (put_state w i v) i ≡ v
  pub look-put_ne :
      (w : W) (i j : ℕ) (v : MapValue) → i < size → i ≢ j → look (put_state w i v) j ≡ look w j

module _ {W : Type 0} (k : Kernel W) (m : Option ℕ) (size : ℕ) (a : ArrayMap k m size) where
  open a use {look, put_state, lookup_in, put_in}

  -- Entry `j` is the first at or after `i` that is not active.
  pub record FirstFree (w : W) (i j : ℕ) : Type 0 where
    pub from : i ≤ j
    pub free : active (look w j) ≡ 0
    pub busy : (n : ℕ) → i ≤ n → n < j → active (look w n) ≢ 0

  -- The two ways in which the search ends.
  abbrev pub Searched : W → ℕ → ℕ → MapValue → Outcome (Ret (Unit {0}) × W) → Type 0
  Searched w i end v o =
      ((j : ℕ) × (j < end) × FirstFree w i j × (o ≡ done (ok tt, put_state w j v)))
      ⊎ (((n : ℕ) → i ≤ n → n < end → active (look w n) ≢ 0)
          × (o ≡ done (err (message (codes "No more space in map to put routeobject")), w)))

  put_from_free :
      (rounds i : ℕ) (v : MapValue) (w : W)
      → i < size
      → active (look w i) ≡ 0
      → put_from k (suc rounds) i m v w ≡ done (ok tt, put_state w i v)
  unfolding put_from is_free
  put_from_free rounds i v w h free = rw (lookup_in w i h, ◌>>=◌) (rw free (put_in w i v h))

  put_from_busy :
      (rounds i : ℕ) (v : MapValue) (w : W)
      → i < size
      → is_free (ok (look w i)) ≡ false
      → put_from k (suc rounds) i m v w ≡ put_from k rounds (suc i) m v w
  unfolding put_from
  put_from_busy rounds i v w h busy = rw (lookup_in w i h, ◌>>=◌) (rw busy refl)

  is_free_active : (v : MapValue) → is_free (ok v) ≡ true → active v ≡ 0
  unfolding is_free
  is_free_active v h = ground arith

  active_ne : (v : MapValue) → is_free (ok v) ≡ false → active v ≢ 0
  unfolding is_free
  active_ne v h = ground arith

  busy_from :
      (w : W) (i end : ℕ)
      → active (look w i) ≢ 0
      → ((n : ℕ) → suc i ≤ n → n < end → active (look w n) ≢ 0)
      → (n : ℕ) → i ≤ n
      → n < end
      → active (look w n) ≢ 0
  busy_from w i end first rest n ge lt = elim (ℕ_discrete i n) [
    | yes e ↦ rw (← e) first
    | no ne ↦ rest n (omega arith) lt
  ]

  -- The search over `rounds` entries from entry `i` on.
  put_from_lem :
      (rounds i : ℕ) (v : MapValue) (w : W)
      → i + rounds ≤ size
      → Searched w i (i + rounds) v (put_from k rounds i m v w)
  unfolding put_from
  put_from_lem zero i v w h = inr (λ n ge lt. absurd (omega arith), refl)
  put_from_lem (suc rounds) i v w h = elim (Bool-cases (is_free (ok (look w i)))) [
    | inl free ↦ inl (
      i,
      omega arith,
      record {
        from = omega arith;
        free = is_free_active (look w i) free;
        busy = λ n ge lt. absurd (omega arith);
      },
      put_from_free rounds i v w (omega arith) (is_free_active (look w i) free),
    )
    | inr used ↦
        let step = put_from_busy rounds i v w (omega arith) used in
        let first = active_ne (look w i) used in
        elim (put_from_lem rounds (suc i) v w (omega arith)) [
          | inl (j, lt, f, e) ↦ inl (
            j,
            omega arith,
            record {
              from = omega (arith, f.from);
              free = f.free;
              busy = λ n ge le. busy_from w i j first f.busy n ge le;
            },
            step ∙ e,
          )
          | inr (all, e) ↦ inr (
            λ n ge lt.
                busy_from w i (i + suc rounds) first (λ n' ge' lt'. all n' ge' (omega arith)) n ge
                  lt,
            step ∙ e,
          )
        ]
  ]

  -- Over a map that behaves as an array of at least eight entries, a new route goes to the first
  -- entry that is not active and the call succeeds, or all eight are active and the call fails and
  -- changes nothing.
  pub put_next_split_route_obj-Searched :
      (v : MapValue) (w : W)
      → max_routes ≤ size
      → Searched w 0 max_routes v (put_next_split_route_obj k m v w)
  unfolding put_next_split_route_obj
  put_next_split_route_obj-Searched v w h =
      let e : 0 + max_routes ≡ max_routes = omega arith in
      subst (λ n. Searched w 0 n v (put_from k max_routes 0 m v w)) e
        (put_from_lem max_routes 0 v w (omega arith))

  -- Over a map that behaves as an array of at least eight entries, after a call that succeeded the
  -- route is read back from the entry that was the first free one, and every other entry is as
  -- before.
  pub put_next_split_route_obj-look :
      (v : MapValue) (w w' : W)
      → max_routes ≤ size
      → put_next_split_route_obj k m v w ≡ done (ok tt, w')
      → (j : ℕ) × FirstFree w 0 j × (look w' j ≡ v) × ((n : ℕ) → n ≢ j → look w' n ≡ look w n)
  put_next_split_route_obj-look v w w' h e = elim (put_next_split_route_obj-Searched v w h) [
    | inl (j, lt, f, p) ↦
        let q : put_state w j v ≡ w' = cc (e, p) in
        (
          j,
          f,
          rw (← q) (a.look-put_self w j v (omega arith)),
          λ n ne. rw (← q) (a.look-put_ne w j n v (omega arith) (λ r. ne (sym r))),
        )
    | inr (all, p) ↦ absurd (no_room (sym e ∙ p))
  ]
    where
      no_room :
          {x : Error} {u : W}
          → ◌≡◌ {A = Outcome (Ret (Unit {0}) × W)} (done (ok tt, w')) (done (err x, u))
          → ⊥
      no_room p = cc
