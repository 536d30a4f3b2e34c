-- ===== src/Provider/Pods/Updates.antt =====
-- UpdatePod of pkg/provider/pod.go on a pod that was created, where the calls that it makes return.
use feather_multiruntimenetw.Common.{
  ℕ, List, [], ◌∷◌, ◌≡◌, refl, subst, false, Option, none, some, Text, text_eq, M, Ret, ok, err,
  Outcome, done, panic, stuck, Ends, Returns, ◌>>=◌, pure, get, or_return, All,
}
use feather_multiruntimenetw.Common.Dict.{insert}
use feather_multiruntimenetw.Provider.Spec.{Container, Pod, Instance}
use feather_multiruntimenetw.Provider.Identifier.{pod_to_identifier}
use feather_multiruntimenetw.Provider.Host.{Host, Provider}
use feather_multiruntimenetw.Provider.Instances.{kern}
use feather_multiruntimenetw.Provider.Pods.{
  create_one, create_instances, delete_found, delete_instances, delete_pod, deploy, create_pod,
  update_pod, is_k8s_app, all_containers,
}
use feather_multiruntimenetw.Provider.Pods.Tables.{SameTables, SameTables-refl, SameTables-trans}
use feather_multiruntimenetw.Provider.Pods.Lifecycle.{HasInstance, Failed, new_instance-collision}
use feather_multiruntimenetw.Provider.Pods.Outcomes.{Created, create_pod-Created}

-- What the theorem relies on of the host: these calls return, with or without an error.
pub record Answers {W : Type 0} (h : Host W) : Type 0 where
  pub deletes : (b : ℕ) (i : Instance) (w : W) → Returns (λ r v. Unit {0}) (h.delete_instance b i w)
  pub inits :
      (namespace name : Text) (w : W)
      → Returns (λ r v. Unit {0}) (h.init_pod_network namespace name w)
  pub stops :
      (namespace name : Text) (w : W)
      → Returns (λ r v. Unit {0}) (h.stop_pod_network namespace name w)

-- The call returns from every state and leaves the tables alone.
record Passes {W A : Type 0} (m : M (Provider W) A) : Type 0 where
  at : (s : Provider W) → Returns (λ a t. SameTables s t) (m s)

module _ {W : Type 0} where
  after-Passes :
      {A B : Type 0} (P : B → Provider W → Type 0) (s : Provider W) (o : Outcome (A × Provider W))
      (f : A → M (Provider W) B)
      → Returns (λ a t. SameTables s t) o
      → ((a : A) (t : Provider W) → SameTables s t → Returns P (f a t))
      → Returns P (elim o [ done r ↦ f r.0 r.1 | panic ↦ panic | stuck ↦ stuck ])
  after-Passes P s panic f h g = absurd h
  after-Passes P s stuck f h g = absurd h
  after-Passes P s (done (a, t)) f h g = g a t h

  from_there :
      {A : Type 0} (s t : Provider W) (o : Outcome (A × Provider W))
      → SameTables s t
      → Returns (λ a u. SameTables t u) o
      → Returns (λ a u. SameTables s u) o
  from_there s t (done (a, u)) e p = SameTables-trans s t u e p
  from_there s t panic e p = absurd p
  from_there s t stuck e p = absurd p

  Passes-bind :
      {A B : Type 0} {m : M (Provider W) A} {f : A → M (Provider W) B}
      → Passes m
      → ((a : A) → Passes (f a))
      → Passes (m >>= f)
  Passes-bind {m = m} {f = f} h g = record {
    at = λ s.
        after-Passes (λ b u. SameTables s u) s (m s) f (h.at s)
          λ a t e. from_there s t (f a t) e ((g a).at t);
  }

  Passes-pure : {A : Type 0} (a : A) → Passes {W = W} (pure a)
  Passes-pure a = record { at = λ s. SameTables-refl s }

  Passes-get : Passes {W = W} get
  Passes-get = record { at = λ s. SameTables-refl s }

  kern-Passes :
      {A : Type 0} (s : Provider W) (o : Outcome (A × W))
      → Returns (λ r v. Unit {0}) o
      → Returns
          (λ a t. SameTables s t)
          (elim o [ done r ↦ done (r.0, record s { world = r.1 }) | panic ↦ panic | stuck ↦ stuck ])
  kern-Passes s panic h = absurd h
  kern-Passes s stuck h = absurd h
  kern-Passes s (done (a, w)) h = record { backends = refl; pods = refl; instances = refl }

  Passes-kern :
      {A : Type 0} (m : M W A) → ((w : W) → Returns (λ r v. Unit {0}) (m w)) → Passes (kern m)
  Passes-kern m h = record { at = λ s. kern-Passes s (m s.world) (h s.world) }

module _ {W : Type 0} (h : Host W) (answers : Answers h) where
  delete_found-Passes : (i : Option Instance) → Passes (delete_found h i)
  unfolding delete_found
  delete_found-Passes none = Passes-pure _
  delete_found-Passes (some i) =
      Passes-bind (Passes-kern (h.delete_instance i.backend i) (answers.deletes i.backend i))
        λ r. Passes-pure _

  delete_instances-Passes : (pod : Pod) (cs : List Container) → Passes (delete_instances h pod cs)
  unfolding delete_instances
  delete_instances-Passes pod [] = Passes-pure _
  delete_instances-Passes pod (c ∷ cs) =
      Passes-bind Passes-get
        λ s. Passes-bind (delete_found-Passes _) λ r. delete_instances-Passes pod cs

  delete_pod-Passes : (pod : Pod) → Passes (delete_pod h pod)
  unfolding delete_pod
  delete_pod-Passes pod = Passes-bind (delete_instances-Passes pod (all_containers pod)) λ r.
      Passes-bind
        (Passes-kern (h.stop_pod_network pod.namespace pod.name)
          (answers.stops pod.namespace pod.name))
        λ r. Passes-pure _

  create_instances_refused :
      (pod : Pod) (c : Container) (cs : List Container) (s : Provider W)
      → HasInstance pod s c
      → Returns Failed (create_instances h pod (c ∷ cs) s)
  unfolding create_instances create_one
  create_instances_refused pod c cs s there = rw (new_instance-collision h pod c s there, ◌>>=◌) tt

  stopped :
      {A : Type 0} (o : Outcome (Ret A × Provider W)) (f : A → M (Provider W) (Ret (Unit {0})))
      → Returns Failed o
      → Returns Failed (elim o [ done r ↦ or_return r.0 f r.1 | panic ↦ panic | stuck ↦ stuck ])
  stopped (done (ok a, t)) f x = absurd x
  stopped (done (err e, t)) f x = tt
  stopped panic f x = absurd x
  stopped stuck f x = absurd x

  deploy_refused :
      (pod : Pod) (c : Container) (cs : List Container) (s : Provider W)
      → all_containers pod ≡ c ∷ cs
      → HasInstance pod s c
      → Returns Failed (deploy h pod s)
  unfolding deploy
  deploy_refused pod c cs s first there =
      after-Passes Failed s (kern (h.init_pod_network pod.namespace pod.name) s) _
        ((Passes-kern (h.init_pod_network pod.namespace pod.name)
            (answers.inits pod.namespace pod.name)).at
          s)
        λ r t e.
          let fails : Returns Failed (create_instances h pod (c ∷ cs) t) =
            create_instances_refused pod c cs t (rw (e.instances) there) in
          stopped (create_instances h pod (all_containers pod) t) _ (rw first fails)

  first_of_All :
      (pod : Pod) (t : Provider W) (c : Container) (cs : List Container)
      → all_containers pod ≡ c ∷ cs
      → All (HasInstance pod t) (all_containers pod)
      → HasInstance pod t c
  first_of_All pod t c cs first a =
      let b : All (HasInstance pod t) (c ∷ cs) = subst (λ l. All (HasInstance pod t) l) first a in
      b.0

  -- If the host answers, a pod that is deployed, has a container and was created without an error
  -- cannot be updated: the update returns an error.
  pub update_pod-create_pod :
      (pod : Pod) (s t : Provider W) (c : Container) (cs : List Container)
      → is_k8s_app pod ≡ false
      → all_containers pod ≡ c ∷ cs
      → create_pod h pod s ≡ done (ok tt, t)
      → Returns Failed (update_pod h pod t)
  unfolding update_pod create_pod
  update_pod-create_pod pod s t c cs deployed first created =
      let all : Ends (Created pod s) (done (ok tt, t)) =
        subst (Ends (Created pod s)) created (create_pod-Created h pod s deployed) in
      after-Passes Failed t (delete_pod h pod t) _ ((delete_pod-Passes pod).at t) λ r u e.
        elim r as (λ r. Returns Failed (or_return r (λ _. create_pod h pod) u)) [
          | err x ↦ tt
          | ok v ↦ rw deployed (
              deploy_refused pod c cs
                (record u { pods = insert (pod_to_identifier pod) pod u.pods }) first
                (rw (e.instances) (first_of_All pod t c cs first all)))
        ]
