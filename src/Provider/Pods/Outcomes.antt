-- ===== src/Provider/Pods/Outcomes.antt =====
-- How CreatePod of pkg/provider/pod.go ends, and what GetPod then finds.
use feather_multiruntimenetw.Common.{
  List, [], ◌∷◌, ◌≡◌, ◌≢◌, refl, ap, subst, ◌∙◌, false, some, text_eq, Ret, ok, err, Outcome, done,
  panic, stuck, Ends, or_return, Bool-cases, inl, inr, All,
}
use feather_multiruntimenetw.Common.Dict.{lookup, insert, lookup-insert_self}
use feather_multiruntimenetw.Provider.Spec.{Pod, Instance}
use feather_multiruntimenetw.Provider.Identifier.{pod_to_identifier, join_identifier_from_parts}
use feather_multiruntimenetw.Provider.Identifier.Laws.{pod_to_identifier_named}
use feather_multiruntimenetw.Provider.Host.{Host, Provider}
use feather_multiruntimenetw.Provider.Instances.{kern}
use feather_multiruntimenetw.Provider.Pods.{
  create_instances, start_instances, deploy, create_pod, get_pod, is_k8s_app, all_containers,
}
use feather_multiruntimenetw.Provider.Pods.Tables.{
  SameTables, SameTables-trans, Reads-kern, create_instances-Reads,
}
use feather_multiruntimenetw.Provider.Pods.Lifecycle.{HasInstance, after-Reads}
use feather_multiruntimenetw.Provider.Pods.Creation.{
  AreAll, create_instances-AreAll, start_instances-All,
}

-- On success every container has an instance; on an error no instance was recorded or removed.
abbrev pub Created : {W : Type 0} → Pod → Provider W → Ret (Unit {0}) → Provider W → Type 0
Created pod s (ok u) t = All (HasInstance pod t) (all_containers pod)
Created pod s (err e) t = t.instances ≡ s.instances

abbrev IsOk : Ret (Unit {0}) → Type 0
IsOk (ok u) = Unit
IsOk (err e) = ⊥

module _ {W : Type 0} (h : Host W) where
  start_instances-IsOk :
      (is : List Instance) (s : Provider W) → Ends (λ r t. IsOk r) (start_instances h is s)
  unfolding start_instances
  start_instances-IsOk [] s = tt
  start_instances-IsOk (i ∷ is) s =
      after-Reads (λ r t. IsOk r) s (kern (h.start_instance i.backend i)) _ (Reads-kern _)
        λ r t e. start_instances-IsOk is (record t { instances = insert i.id i t.instances })

  Created-ok :
      (pod : Pod) (s : Provider W) (o : Outcome (Ret (Unit {0}) × Provider W))
      → Ends (λ r t. IsOk r) o
      → Ends (λ r t. All (HasInstance pod t) (all_containers pod)) o
      → Ends (Created pod s) o
  Created-ok pod s (done (ok u, t)) i a = a
  Created-ok pod s (done (err e, t)) i a = absurd i
  Created-ok pod s panic i a = tt
  Created-ok pod s stuck i a = tt

  started-Created :
      (pod : Pod) (s : Provider W) (o : Outcome (Ret (List Instance) × Provider W))
      → Ends (λ r t. AreAll pod (all_containers pod) r) o
      → Ends (λ r t. t.instances ≡ s.instances) o
      → Ends (Created pod s) (elim o [
        | done r ↦ or_return r.0 (start_instances h) r.1
        | panic ↦ panic
        | stuck ↦ stuck
      ])
  started-Created pod s (done (err e, t)) a same = same
  started-Created pod s (done (ok is, t)) a same =
      Created-ok pod s (start_instances h is t) (start_instances-IsOk is t)
        (start_instances-All h pod (all_containers pod) is t a)
  started-Created pod s panic a same = tt
  started-Created pod s stuck a same = tt

  same_instances :
      {A : Type 0} (s t : Provider W) (o : Outcome (A × Provider W))
      → SameTables s t
      → Ends (λ r u. SameTables t u) o
      → Ends (λ r u. u.instances ≡ s.instances) o
  same_instances s t (done (a, u)) e p = (SameTables-trans s t u e p).instances
  same_instances s t panic e p = tt
  same_instances s t stuck e p = tt

  deploy-Created : (pod : Pod) (s : Provider W) → Ends (Created pod s) (deploy h pod s)
  unfolding deploy
  deploy-Created pod s =
      after-Reads (Created pod s) s (kern (h.init_pod_network pod.namespace pod.name)) _
        (Reads-kern _)
        λ r t e.
          started-Created pod s (create_instances h pod (all_containers pod) t)
            ((create_instances-AreAll h pod (all_containers pod)).at t)
            (same_instances s t (create_instances h pod (all_containers pod) t) e
              ((create_instances-Reads h pod (all_containers pod)).at t))

  -- Where creating a pod that is deployed returns without an error, every container of the pod
  -- has an instance; where it returns an error, the instances are as before, also those of the
  -- containers that were made before the error.
  pub create_pod-Created :
      (pod : Pod) (s : Provider W)
      → is_k8s_app pod ≡ false
      → Ends (Created pod s) (create_pod h pod s)
  unfolding create_pod
  create_pod-Created pod s deployed =
      rw deployed
        (deploy-Created pod (record s { pods = insert (pod_to_identifier pod) pod s.pods }))

  start_instances_pods :
      (is : List Instance) (s : Provider W) → Ends (λ r t. t.pods ≡ s.pods) (start_instances h is s)
  unfolding start_instances
  start_instances_pods [] s = refl
  start_instances_pods (i ∷ is) s =
      after-Reads (λ r t. t.pods ≡ s.pods) s (kern (h.start_instance i.backend i)) _ (Reads-kern _)
        λ r t e.
          rw (← e.pods)
            (start_instances_pods is (record t { instances = insert i.id i t.instances }))

  deploy_pods : (pod : Pod) (s : Provider W) → Ends (λ r t. t.pods ≡ s.pods) (deploy h pod s)
  unfolding deploy
  deploy_pods pod s =
      after-Reads (λ r t. t.pods ≡ s.pods) s (kern (h.init_pod_network pod.namespace pod.name)) _
        (Reads-kern _)
        λ r t e.
          after-Reads (λ r t. t.pods ≡ s.pods) t (create_instances h pod (all_containers pod)) _
            (create_instances-Reads h pod (all_containers pod))
            λ made u e'. started_pods s u made (e'.pods ∙ e.pods)
    where
      started_pods :
          (s u : Provider W) (made : Ret (List Instance))
          → u.pods ≡ s.pods
          → Ends (λ r t. t.pods ≡ s.pods) (or_return made (start_instances h) u)
      started_pods s u (err e) p = p
      started_pods s u (ok is) p = rw (← p) (start_instances_pods is u)

  pod_found :
      (pod : Pod) (s : Provider W) (o : Outcome (Ret (Unit {0}) × Provider W))
      → pod.namespace ≢ []
      → Ends (λ r t. t.pods ≡ insert (pod_to_identifier pod) pod s.pods) o
      → Ends (λ r t. get_pod pod.namespace pod.name t ≡ ok pod) o
  unfolding get_pod
  pod_found pod s (done (r, t)) named e =
      let key = join_identifier_from_parts (pod.namespace ∷ pod.name ∷ []) in
      let there : lookup key (insert (pod_to_identifier pod) pod s.pods) ≡ some pod =
        subst (λ k. lookup k (insert (pod_to_identifier pod) pod s.pods) ≡ some pod)
          (pod_to_identifier_named pod named)
          (lookup-insert_self (pod_to_identifier pod) pod s.pods) in
      let here : lookup key t.pods ≡ some pod = ap (lookup key) e ∙ there in rw (here, get_pod) refl
  pod_found pod s panic named e = tt
  pod_found pod s stuck named e = tt

  -- A pod with a namespace is found after it was created, also where creating it has failed.
  pub get_pod-create_pod :
      (pod : Pod) (s : Provider W)
      → pod.namespace ≢ []
      → Ends (λ r t. get_pod pod.namespace pod.name t ≡ ok pod) (create_pod h pod s)
  unfolding create_pod
  get_pod-create_pod pod s named =
      pod_found pod s (create_pod h pod s) named (elim (Bool-cases (is_k8s_app pod)) [
        | inl k8s ↦ rw k8s refl
        | inr deployed ↦
            rw deployed
              (deploy_pods pod (record s { pods = insert (pod_to_identifier pod) pod s.pods }))
      ])
