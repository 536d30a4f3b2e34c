-- ===== src/Provider/Pods/Phases.antt =====
-- The phase that GetPodStatus of pkg/provider/pod.go reports.
use feather_multiruntimenetw.Common.{
  List, [], ◌∷◌, ◌≡◌, refl, ap, ap₂, ◌∙◌, Bool, true, false, arith, if◌then◌else◌, ◌&&◌, ◌||◌, not,
}
use feather_multiruntimenetw.Provider.Spec.{ContainerState, pod_pending, pod_running, pod_failed}
use feather_multiruntimenetw.Provider.Pods.{flags, all_flags, phase_of}

-- Some container has ended, and does not run.
abbrev pub any_ended : List ContainerState → Bool
any_ended [] = false
any_ended (state ∷ states) = (not state.running && state.terminated) || any_ended states

-- Some container neither runs nor has ended: it waits.
abbrev pub any_waiting : List ContainerState → Bool
any_waiting [] = false
any_waiting (state ∷ states) = (not state.running && not state.terminated) || any_waiting states

flags_lem :
    (started running : Bool) (state : ContainerState)
    → flags (started, running) state ≡ (
      started && not (not state.running && not state.terminated),
      running && not (not state.running && state.terminated),
    )
flags_lem started running state = ground arith

fold_and : (b c d : Bool) → (b && not c) && not d ≡ b && not (c || d)
fold_and b c d = ground arith

all_flags_lem :
    (started running : Bool) (states : List ContainerState)
    → all_flags (started, running) states
      ≡ (started && not (any_waiting states), running && not (any_ended states))
all_flags_lem started running [] = ground arith
all_flags_lem started running (state ∷ states) =
    let waits : Bool = not state.running && not state.terminated in
    let ended : Bool = not state.running && state.terminated in
    ap (λ f. all_flags f states) (flags_lem started running state)
    ∙ all_flags_lem (started && not waits) (running && not ended) states
    ∙ ap₂ (λ a b. (a, b)) (fold_and started waits (any_waiting states))
        (fold_and running ended (any_ended states))

-- The phase is Running where no container has ended, even if one waits; Failed where one has
-- ended and none waits; and Pending where one has ended and one waits.
pub phase_of_lem :
    (states : List ContainerState)
    → phase_of states ≡ (
        if not (any_ended states)
        then pod_running
        else if not (any_waiting states)
        then pod_failed
        else pod_pending)
unfolding phase_of
phase_of_lem states = rw (all_flags_lem true true states) refl
