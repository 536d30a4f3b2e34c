-- ===== src/Network/Links/Retry.antt =====
-- The retry loops of pkg/network/ContainerNetworking.go: a call is made again until it succeeds.
-- The waits between the calls are left out.
use feather_multiruntimenetw.Common.{
  ℕ, zero, suc, ◌≡◌, ◌<◌, refl, Text, M, Ret, ok, err, done, stuck, ◌>>=◌, some, pure, Error, arith,
}
use feather_multiruntimenetw.Network.Kernel.{Kernel, Link}

module _ {W A : Type 0} where
  -- `for err != nil { ... }`
  unfoldable pub retry : ℕ → M W (Ret A) → M W A
  retry zero call w = stuck
  retry (suc rounds) call w =
      let again = retry rounds call in (call >>= λ r. elim r [ ok a ↦ pure a | err e ↦ again ]) w

  -- The call fails `n` times from `w` on and then gives `a` and `w'`.
  pub data SucceedsAfter (call : M W (Ret A)) (a : A) (w' : W) : ℕ → W → Type 0 where
    at_once : {w : W} → call w ≡ done (ok a, w') → SucceedsAfter call a w' zero w
    later :
        {n : ℕ} {w v : W} {e : Error}
        → call w ≡ done (err e, v)
        → SucceedsAfter call a w' n v
        → SucceedsAfter call a w' (suc n) w

  -- A loop whose call succeeds after `n` failures returns its result, with any number of rounds
  -- above `n`.
  pub retry_lem :
      (rounds : ℕ) {n : ℕ} (call : M W (Ret A)) (a : A) {w : W} (w' : W)
      → n < rounds
      → SucceedsAfter call a w' n w
      → retry rounds call w ≡ done (a, w')
  unfolding retry
  retry_lem zero call a w' h s = absurd (omega arith)
  retry_lem (suc rounds) call a w' h (at_once e) = rw (e, ◌>>=◌) refl
  retry_lem (suc rounds) call a w' h (later e s) =
      rw (e, ◌>>=◌) (retry_lem rounds call a w' (omega arith) s)

module _ {W : Type 0} (k : Kernel W) (rounds : ℕ) where
  open k use {link_by_name, netns_set, link_set_up}

  -- `tryGetLink`
  unfoldable pub try_get_link : Text → M W Link
  unfolding retry
  try_get_link name = retry rounds (link_by_name name)

  -- `trySetNs`
  unfoldable pub try_set_ns : ℕ → M W (Unit {0})
  unfolding retry
  try_set_ns handle = retry rounds (netns_set handle)

  -- `trySetLinkUp`
  unfoldable pub try_set_link_up : Link → M W (Unit {0})
  unfolding retry
  try_set_link_up link = retry rounds (link_set_up (some link))
