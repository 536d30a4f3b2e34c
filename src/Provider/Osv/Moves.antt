-- ===== src/Provider/Osv/Moves.antt =====
-- The phases that the calls of OSvBackend, in pkg/provider/backend_osv.go, move an instance
-- through.
use feather_multiruntimenetw.Common.{
  ℕ, zero, suc, List, [], ◌∷◌, ◌++◌, ◌≡◌, refl, ap, sym, subst, ◌∙◌, ◌≢◌, ◌⊎◌, ◌<◌, Option, none,
  some, Text, text_eq, nat_eq, get_elem?, set, length, Bool-cases, inl, inr, ◌==◌, if◌then◌else◌,
  beq_eq, ne_of_beq,
}
use feather_multiruntimenetw.Common.Dict.{
  lookup, lookup-insert_self, lookup-insert_ne, lookup-erase_self, lookup-erase_ne,
}
use feather_multiruntimenetw.Common.Cells.{
  get_elem?-lt, get_elem?-set_self, get_elem?-set_ne, get_elem?-append, get_elem?-append_last,
}
use feather_multiruntimenetw.Provider.Osv.{
  unset, waiting, running, terminated, VmState, VmStatus, Watcher,
}
use feather_multiruntimenetw.Provider.Osv.Core.{Core}
use feather_multiruntimenetw.Provider.Osv.Changes.{erases, add_status, begin, Made, Began}
use feather_multiruntimenetw.Provider.Osv.Lifecycle.{
  Phase, absent, created, started, ended, state_phase, cell_phase, address_phase, phase, Valid,
  Tended, some_injective, erases-Valid,
}
use feather_multiruntimenetw.Provider.Osv.Exits.{ended_core}

-- The life of a virtual machine: it is made, runs, ends, may run again, and is removed at any
-- time.
pub data Move : Phase → Phase → Type 0 where
  stays : (p : Phase) → Move p p
  is_removed : (p : Phase) → Move p absent
  is_made : (p : Phase) → Move p created
  begins : Move created started
  begins_again : Move ended started
  ends : Move started ended

-- One instance moves, and all others stay.
pub record Follows (f g : Text → Phase) : Type 0 where
  pub subject : Text
  pub after : Phase
  pub moves : Move (f subject) after
  pub leaves : (j : Text) → g j ≡ (if j == subject then after else f j)

follow :
    (f g : Text → Phase) (id : Text) (after : Phase)
    → Move (f id) after
    → g id ≡ after
    → ((j : Text) → j ≢ id → g j ≡ f j)
    → Follows f g
follow f g id after mv self others = record {
  subject = id;
  after = after;
  moves = mv;
  leaves = λ j. elim (Bool-cases (j == id)) [
    | inl same ↦ rw same (rw (beq_eq j id same) self)
    | inr other ↦ rw other (others j (ne_of_beq j id other))
  ];
}

pub same-Follows : (f g : Text → Phase) → Text → ((j : Text) → g j ≡ f j) → Follows f g
same-Follows f g id same = follow f g id (f id) (stays (f id)) (same id) (λ j ne. same j)

phase-erases_ne :
    (j id : Text) (n : ℕ) (c : Core)
    → j ≢ id
    → address_phase c.memory (lookup j (erases id n c).instance_statuses) ≡ phase c j
phase-erases_ne j id zero c ne = refl
phase-erases_ne j id (suc n) c ne =
    ap (address_phase c.memory) (lookup-erase_ne j id (erases id n c).instance_statuses ne)
    ∙ phase-erases_ne j id n c ne

memory-erases : (id : Text) (n : ℕ) (c : Core) → (erases id n c).memory ≡ c.memory
memory-erases id zero c = refl
memory-erases id (suc n) c = memory-erases id n c

phase_of_erases_ne : (j id : Text) (n : ℕ) (c : Core) → j ≢ id → phase (erases id n c) j ≡ phase c j
phase_of_erases_ne j id n c ne =
    ap (λ mem. address_phase mem (lookup j (erases id n c).instance_statuses))
      (memory-erases id n c)
    ∙ phase-erases_ne j id n c ne

pub erases-Follows : (id : Text) (n : ℕ) (c : Core) → Follows (phase c) (phase (erases id n c))
erases-Follows id zero c = same-Follows (phase c) (phase c) id (λ j. refl)
erases-Follows id (suc n) c =
    follow (phase c) (phase (erases id (suc n) c)) id absent (is_removed (phase c id))
      (ap (address_phase (erases id n c).memory)
        (lookup-erase_self id (erases id n c).instance_statuses))
      (λ j ne. phase_of_erases_ne j id (suc n) c ne)

-- A pointer to a status that was there before another was added.
added_phase :
    (memory : List VmStatus) (status : VmStatus) (o : Option ℕ)
    → ((a : ℕ) → o ≡ some a → a < length memory)
    → address_phase (memory ++ status ∷ []) o ≡ address_phase memory o
added_phase memory status none b = refl
added_phase memory status (some a) b =
    ap cell_phase (get_elem?-append memory (status ∷ []) a (b a refl))

phase-add_status_ne :
    (j id : Text) (status : VmStatus) (c : Core)
    → Valid c
    → j ≢ id
    → phase (add_status id status c) j ≡ phase c j
phase-add_status_ne j id status c v ne =
    ap (address_phase (c.memory ++ status ∷ []))
      (lookup-insert_ne j id (length c.memory) c.instance_statuses ne)
    ∙ added_phase c.memory status (lookup j c.instance_statuses) (v.bounded j)

phase-add_status :
    (id : Text) (status : VmStatus) (c : Core)
    → phase (add_status id status c) id ≡ state_phase status.state
phase-add_status id status c =
    ap (address_phase (c.memory ++ status ∷ []))
      (lookup-insert_self id (length c.memory) c.instance_statuses)
    ∙ ap cell_phase (get_elem?-append_last c.memory status)

pub Made-Follows : (id : Text) (c d : Core) → Valid c → Made id c d → Follows (phase c) (phase d)
Made-Follows id c d v made =
    let e : Core = erases id made.times c in
    let valid : Valid e = erases-Valid id made.times c v in
    subst (λ x. Follows (phase c) (phase x)) (sym made.left)
      (follow (phase c) (phase (add_status id made.status e)) id created (is_made (phase c id))
        (phase-add_status id made.status e ∙ ap state_phase made.waits)
        (λ j ne.
          phase-add_status_ne j id made.status e valid ne
          ∙ phase_of_erases_ne j id made.times c ne))

-- A pointer to another status than the one that was written.
written_phase :
    (memory : List VmStatus) (a : ℕ) (status : VmStatus) (o : Option ℕ)
    → ((b : ℕ) → o ≡ some b → b ≢ a)
    → address_phase (set memory a status) o ≡ address_phase memory o
written_phase memory a status none ne = refl
written_phase memory a status (some b) ne =
    ap cell_phase (get_elem?-set_ne memory a b status (ne b refl))

-- A pointer to the status that was written.
phase_written :
    (memory : List VmStatus) (a : ℕ) (old status : VmStatus) (o : Option ℕ)
    → o ≡ some a
    → get_elem? memory a ≡ some old
    → address_phase (set memory a status) o ≡ state_phase status.state
phase_written memory a old status o found stands =
    ap (address_phase (set memory a status)) found
    ∙ ap cell_phase (get_elem?-set_self memory a status (get_elem?-lt memory a old stands))

started-Move : (p : Phase) → p ≢ absent → p ≢ started → Move p started
started-Move absent a s = absurd (a refl)
started-Move created a s = begins
started-Move started a s = absurd (s refl)
started-Move ended a s = begins_again

state_there : (state : VmState) → state_phase state ≢ absent
state_there unset e = cc
state_there waiting e = cc
state_there (running t) e = cc
state_there (terminated code msg from to) e = cc

pub found_phase :
    (c : Core) (id : Text) (a : ℕ) (status : VmStatus)
    → lookup id c.instance_statuses ≡ some a
    → get_elem? c.memory a ≡ some status
    → phase c id ≡ state_phase status.state
found_phase c id a status found stands = ap (address_phase c.memory) found ∙ ap cell_phase stands

pub phase-Began : (id : Text) (c d : Core) → Began id c d → phase d id ≡ started
phase-Began id c d b =
    ap (λ x. phase x id) b.left
    ∙ phase_written c.memory b.address b.status (record b.status { state = running b.now })
        (lookup id c.instance_statuses) b.found b.stands

pub Began-Follows :
    (id : Text) (c d : Core)
    → Valid c
    → phase c id ≢ started
    → Began id c d
    → Follows (phase c) (phase d)
Began-Follows id c d v idle b =
    let here : phase c id ≡ state_phase b.status.state =
      found_phase c id b.address b.status b.found b.stands in
    let runs : VmStatus = record b.status { state = running b.now } in
    subst (λ x. Follows (phase c) (phase x)) (sym b.left)
      (follow (phase c) (phase (begin b.address b.status b.now b.watcher c)) id started
        (started-Move (phase c id) (λ e. state_there b.status.state (sym here ∙ e)) idle)
        (phase_written c.memory b.address b.status runs (lookup id c.instance_statuses) b.found
          b.stands)
        (λ j ne.
          written_phase c.memory b.address runs (lookup j c.instance_statuses)
            (λ k h e. ne (v.injective j id b.address (h ∙ ap some e) b.found))))

points_to : (o : Option ℕ) (a : ℕ) → (o ≡ some a) ⊎ (o ≢ some a)
points_to none a = inr λ e. cc
points_to (some b) a = elim (Bool-cases (b == a)) [
  | inl same ↦ inl (ap some (beq_eq b a same))
  | inr other ↦ inr λ e. ne_of_beq b a other (some_injective e)
]

pub ended-Follows :
    (c : Core) (rest : List Watcher) (w : Watcher) (status : VmStatus) (code : ℕ) (msg : Text)
    (from to : ℕ)
    → Tended c w
    → Follows
        (phase c)
        (phase (ended_core c rest w.status (record status { state = terminated code msg from to })))
ended-Follows c rest w status code msg from to t =
    let over : VmStatus = record status { state = terminated code msg from to } in
    let d : Core = ended_core c rest w.status over in
    elim (points_to (lookup w.id c.instance_statuses) w.status) [
      | inl found ↦
          let runs : phase c w.id ≡ started =
            found_phase c w.id w.status t.status found t.stands ∙ ap state_phase t.runs in
          follow (phase c) (phase d) w.id ended (subst (λ p. Move p ended) (sym runs) ends)
            (phase_written c.memory w.status t.status over (lookup w.id c.instance_statuses) found
              t.stands)
            (λ j ne.
              written_phase c.memory w.status over (lookup j c.instance_statuses)
                (λ b h e. ne (t.owned j (h ∙ ap some e))))
      | inr lost ↦ same-Follows (phase c) (phase d) w.id (λ j.
          written_phase c.memory w.status over (lookup j c.instance_statuses) (λ b h e. lost (
            ap (λ k. lookup k c.instance_statuses) (sym (t.owned j (h ∙ ap some e)))
            ∙ h
            ∙ ap some e)))
    ]
