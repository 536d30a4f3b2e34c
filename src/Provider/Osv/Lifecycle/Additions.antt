-- ===== src/Provider/Osv/Lifecycle/Additions.antt =====
-- The addition of a status by CreateInstance of pkg/provider/backend_osv.go.
use feather_multiruntimenetw.Common.{
  ℕ, suc, [], ◌∷◌, ◌≡◌, sym, subst, ◌∙◌, ◌⊎◌, ◌<◌, some, Text, text_eq, length, inl, inr, arith,
}
use feather_multiruntimenetw.Common.Dict.{Dict, lookup}
use feather_multiruntimenetw.Common.Cells.{
  get_elem?-lt, get_elem?-append, length-append_one, All-imply,
}
use feather_multiruntimenetw.Provider.Osv.{VmStatus, Watcher}
use feather_multiruntimenetw.Provider.Osv.Core.{Core}
use feather_multiruntimenetw.Provider.Osv.Changes.{add_status}
use feather_multiruntimenetw.Provider.Osv.Lifecycle.{Tended, Valid, lookup-insert_cases}

added-Bounded :
    (j id : Text) (a n : ℕ) (d : Dict Text ℕ)
    → ((j : Text) (a : ℕ) → lookup j d ≡ some a → a < n)
    → ((j ≡ id) × (a ≡ n)) ⊎ (lookup j d ≡ some a)
    → a < suc n
added-Bounded j id a n d b (inl (s, e)) = omega (arith, e)
added-Bounded j id a n d b (inr h) = omega (arith, b j a h)

added-Injective :
    (j k id : Text) (a n : ℕ) (d : Dict Text ℕ)
    → ((j : Text) (a : ℕ) → lookup j d ≡ some a → a < n)
    → ((j k : Text) (a : ℕ) → lookup j d ≡ some a → lookup k d ≡ some a → j ≡ k)
    → ((j ≡ id) × (a ≡ n)) ⊎ (lookup j d ≡ some a)
    → ((k ≡ id) × (a ≡ n)) ⊎ (lookup k d ≡ some a)
    → j ≡ k
added-Injective j k id a n d b inj (inl (s, e)) (inl (s', e')) = s ∙ sym s'
added-Injective j k id a n d b inj (inl (s, e)) (inr h) = absurd (omega (arith, e, b k a h))
added-Injective j k id a n d b inj (inr h) (inl (s, e)) = absurd (omega (arith, e, b j a h))
added-Injective j k id a n d b inj (inr h) (inr h') = inj j k a h h'

added-Owned :
    (j id owner : Text) (a n : ℕ) (d : Dict Text ℕ)
    → a < n
    → (lookup j d ≡ some a → j ≡ owner)
    → ((j ≡ id) × (a ≡ n)) ⊎ (lookup j d ≡ some a)
    → j ≡ owner
added-Owned j id owner a n d b o (inl (s, e)) = absurd (omega (arith, e, b))
added-Owned j id owner a n d b o (inr h) = o h

added-Tended :
    (id : Text) (status : VmStatus) (c : Core) (w : Watcher)
    → Tended c w
    → Tended (add_status id status c) w
added-Tended id status c w t =
    let b : w.status < length c.memory = get_elem?-lt c.memory w.status t.status t.stands in
    record {
      status = t.status;
      time = t.time;
      stands = get_elem?-append c.memory (status ∷ []) w.status b ∙ t.stands;
      runs = t.runs;
      owned = λ j h.
          added-Owned j id w.id w.status (length c.memory) c.instance_statuses b (t.owned j)
            (lookup-insert_cases j id w.status (length c.memory) c.instance_statuses h);
    }

-- The addition of a status.
pub add_status-Valid :
    (id : Text) (status : VmStatus) (c : Core) → Valid c → Valid (add_status id status c)
add_status-Valid id status c v =
    let n : ℕ = length c.memory in
    let d : Dict Text ℕ = c.instance_statuses in
    record {
      bounded = λ j a h.
          subst (λ l. a < l) (sym (length-append_one c.memory status))
            (added-Bounded j id a n d v.bounded (lookup-insert_cases j id a n d h));
      injective = λ j k a h h'.
          added-Injective j k id a n d v.bounded v.injective (lookup-insert_cases j id a n d h)
            (lookup-insert_cases k id a n d h');
      tended = All-imply c.watchers (added-Tended id status c) v.tended;
      apart = v.apart;
    }
