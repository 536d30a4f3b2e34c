-- ===== src/Fledge/Highest.antt =====
-- The highest status of a pod: GetHighestPodStatus of pkg/fledge/Utils.go.
use feather_multiruntimenetw.Common.{
  List, [], ◌∷◌, ◌≡◌, refl, ap, ◌∙◌, Option, none, some, Text, text_eq, ◌==◌, if◌then◌else◌,
  Bool-cases, inl, inr, beq_eq,
}
use feather_multiruntimenetw.Fledge.{
  PodCondition, no_condition, Conditions, pod_scheduled, ready, unschedulable, initialized_type,
  sort_condition, sort_conditions, is_true, highest, get_highest_pod_status,
}

-- The last condition of a type, or the one before the list if there is none.
abbrev pub last_of : Text → PodCondition → List PodCondition → PodCondition
last_of type last [] = last
last_of type last (c ∷ cs) = last_of type (if c.type == type then c else last) cs

-- The first of the types whose last condition is true.
abbrev pub first_true : List Text → List PodCondition → Option PodCondition
first_true [] cs = none
first_true (t ∷ ts) cs =
    let c = last_of t no_condition cs in if is_true c then some c else first_true ts cs

-- The ranks of the types, the highest first.
abbrev pub ranks : List Text
ranks = unschedulable ∷ ready ∷ initialized_type ∷ pod_scheduled ∷ []

sorted : Conditions → List PodCondition → Conditions
sorted s cs = record {
  scheduled = last_of pod_scheduled s.scheduled cs;
  initialized = last_of initialized_type s.initialized cs;
  pod_ready = last_of ready s.pod_ready cs;
  pod_unschedulable = last_of unschedulable s.pod_unschedulable cs;
}

sort_condition_lem : (s : Conditions) (c : PodCondition) → sort_condition s c ≡ sorted s (c ∷ [])
unfolding sort_condition sorted
sort_condition_lem s c = elim (Bool-cases (c.type == pod_scheduled)) [
  | inl a ↦ rw (beq_eq c.type pod_scheduled a) refl
  | inr a ↦ elim (Bool-cases (c.type == ready)) [
    | inl b ↦ rw (beq_eq c.type ready b) refl
    | inr b ↦ elim (Bool-cases (c.type == unschedulable)) [
      | inl d ↦ rw (beq_eq c.type unschedulable d) refl
      | inr d ↦ elim (Bool-cases (c.type == initialized_type)) [
        | inl f ↦ rw (beq_eq c.type initialized_type f) refl
        | inr f ↦ rw (a, b, d, f) refl
      ]
    ]
  ]
]

sort_conditions_lem : (s : Conditions) (cs : List PodCondition) → sort_conditions s cs ≡ sorted s cs
unfolding sort_conditions sorted
sort_conditions_lem s [] = refl
sort_conditions_lem s (c ∷ cs) =
    sort_conditions_lem (sort_condition s c) cs ∙ ap (λ t. sorted t cs) (sort_condition_lem s c)

-- The highest status of a pod is the last condition of the first type, of Unschedulable, Ready,
-- Initialized and PodScheduled in that order, whose last condition is true; and nil if there is
-- none.
pub get_highest_pod_status_lem :
    (cs : List PodCondition) → get_highest_pod_status cs ≡ first_true ranks cs
unfolding get_highest_pod_status highest sorted
get_highest_pod_status_lem cs = ap highest (sort_conditions_lem _ cs)
