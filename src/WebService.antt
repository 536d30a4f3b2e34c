-- ===== src/WebService.antt =====
-- The handlers of cmd/fledge/internal/fledgews/Handlers.go that call the provider.
use feather_multiruntimenetw.Common.{
  List, [], ◌∷◌, ◌++◌, Bool, true, false, not, ◌||◌, Option, none, some, Text, codes, M, Outcome,
  done, panic, stuck, ◌>>=◌, ◌>>◌, pure, get, modify, if◌then◌else◌,
}
use feather_multiruntimenetw.Provider.Spec.{Pod}
use feather_multiruntimenetw.Provider.Host.{Host, Provider}
use feather_multiruntimenetw.Provider.Pods.{create_pod, delete_pod, get_pods}

-- What decoding the body left in the pod, and whether it failed.
pub record Decoded : Type 0 where
  pub pod : Pod
  pub failed : Bool

-- What is written to the client: an error, or the pods.
pub data Response : Type 0 where
  bad_request : Text → Response
  encoded : List Pod → Response

-- The variables `PodProvider`, which may be nil, and `Ctx`, of which is kept whether it is set; and
-- what was written to the client.
pub record Server (W : Type 0) : Type 0 where
  pub provider : Option (Provider W)
  pub has_context : Bool
  pub responses : List Response

abbrev is_nil : {A : Type 0} → Option A → Bool
is_nil none = true
is_nil (some a) = false

module _ {W : Type 0} where
  abbrev respond : Response → M (Server W) (Unit {0})
  respond r = modify λ s. record s { responses = s.responses ++ r ∷ [] }

  -- The two tests at the beginning, after each of which the handler goes on.
  unfoldable pub complain : Decoded → M (Server W) (Unit {0})
  complain d = do
    decoded ← if d.failed then respond (bad_request (codes "invalid pod")) else pure tt
    s ← get
    let missing = respond (bad_request (codes "FLEDGE pod provider not (yet) initialized"))
    if is_nil s.provider || not s.has_context then missing else pure tt

  abbrev returned : {A : Type 0} → Server W → Outcome (A × Provider W) → Outcome (A × Server W)
  returned s (done (a, p)) = done (a, record s { provider = some p })
  returned s panic = panic
  returned s stuck = stuck

  abbrev with_provider :
      {A : Type 0} → Option (Provider W) → Bool → M (Provider W) A → M (Server W) A
  with_provider none b call s = panic
  with_provider (some p) false call s = panic
  with_provider (some p) true call s = returned s (call p)

  -- A call of the provider, where the provider and the context are dereferenced.
  unfoldable pub on_provider : {A : Type 0} → M (Provider W) A → M (Server W) A
  on_provider call = do s ← get; with_provider s.provider s.has_context call

module _ {W : Type 0} (h : Host W) where
  -- `DeployPod`; what `CreatePod` returns is dropped.
  unfoldable pub deploy_pod : Decoded → M (Server W) (Unit {0})
  deploy_pod d = complain d >> on_provider (create_pod h d.pod) >> pure tt

  -- `DeletePod`
  unfoldable pub delete_pod_of : Decoded → M (Server W) (Unit {0})
  delete_pod_of d = complain d >> on_provider (delete_pod h d.pod) >> pure tt

  -- `GetPods`
  unfoldable pub get_pods_of : M (Server W) (Unit {0})
  get_pods_of = do pods ← on_provider (λ p. done (get_pods p, p)); respond (encoded pods)
