-- ===== src/Provider/Osv/Lifecycle/Writes.antt =====
-- The writes of a status by StartInstance of pkg/provider/backend_osv.go and by the routine that it
-- leaves behind.
use feather_multiruntimenetw.Common.{
  ℕ, List, ◌∷◌, ◌≡◌, refl, ap, sym, subst, ◌∙◌, ◌≢◌, ◌<◌, some, Text, text_eq, get_elem?, set, All,
}
use feather_multiruntimenetw.Common.Dict.{lookup}
use feather_multiruntimenetw.Common.Cells.{
  get_elem?-lt, get_elem?-set_self, get_elem?-set_ne, length-set, All-imply,
}
use feather_multiruntimenetw.Provider.Osv.{running, VmStatus, Watcher}
use feather_multiruntimenetw.Provider.Osv.Core.{Core}
use feather_multiruntimenetw.Provider.Osv.Changes.{begin}
use feather_multiruntimenetw.Provider.Osv.Lifecycle.{
  started, state_phase, Tended, Valid, some_injective,
}

-- A routine that waits for what runs does not write a status that does not run.
Tended-ne :
    (c : Core) (w : Watcher) (a : ℕ) (status : VmStatus)
    → Tended c w
    → get_elem? c.memory a ≡ some status
    → state_phase status.state ≢ started
    → w.status ≢ a
Tended-ne c w a status t stands idle e =
    idle (ap (λ s. state_phase s.state) (sym one) ∙ ap state_phase t.runs)
  where
    one : t.status ≡ status
    one = some_injective (sym t.stands ∙ ap (get_elem? c.memory) e ∙ stands)

-- A write of one status leaves the others.
pub written-Tended :
    (a : ℕ) (status : VmStatus) (c : Core) (ws : List Watcher) (w : Watcher)
    → w.status ≢ a
    → Tended c w
    → Tended (record c { memory = set c.memory a status; watchers = ws }) w
written-Tended a status c ws w ne t = record {
  status = t.status;
  time = t.time;
  stands = get_elem?-set_ne c.memory a w.status status ne ∙ t.stands;
  runs = t.runs;
  owned = t.owned;
}

-- The start of an instance that does not run.
pub begin-Valid :
    (id : Text) (a : ℕ) (status : VmStatus) (now : ℕ) (w : Watcher) (c : Core)
    → Valid c
    → lookup id c.instance_statuses ≡ some a
    → get_elem? c.memory a ≡ some status
    → state_phase status.state ≢ started
    → w.status ≡ a
    → w.id ≡ id
    → Valid (begin a status now w c)
begin-Valid id a status now w c v found stands idle at_a of_id =
    let others : All (λ v. v.status ≢ a) c.watchers =
      All-imply c.watchers (λ x t. Tended-ne c x a status t stands idle) v.tended in
    let runs : VmStatus = record status { state = running now } in
    record {
      bounded = λ j b h. subst (λ l. b < l) (sym (length-set c.memory a runs)) (v.bounded j b h);
      injective = v.injective;
      tended = (
        record {
          status = runs;
          time = now;
          stands =
              ap (get_elem? (set c.memory a runs)) at_a
              ∙ get_elem?-set_self c.memory a runs (get_elem?-lt c.memory a status stands);
          runs = refl;
          owned = λ j h. v.injective j id a (h ∙ ap some at_a) found ∙ sym of_id;
        },
        All-imply c.watchers
            (λ x t.
              written-Tended a runs c (w ∷ c.watchers) x (Tended-ne c x a status t stands idle) t)
            v.tended,
      );
      apart = (All-imply c.watchers (λ x n e. n (e ∙ at_a)) others, v.apart);
    }
