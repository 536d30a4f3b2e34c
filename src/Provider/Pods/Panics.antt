-- ===== src/Provider/Pods/Panics.antt =====
-- CreatePod of pkg/provider/pod.go on a backend that is not enabled.
use feather_multiruntimenetw.Common.{
  List, ◌∷◌, ◌≡◌, refl, false, Option, none, some, Text, text_eq, codes, Ret, ok, err, Outcome,
  done, panic, stuck, Ends, ◌>>=◌, or_return, pure,
}
use feather_multiruntimenetw.Common.Dict.{contains, lookup, insert}
use feather_multiruntimenetw.Provider.Spec.{Container, Pod, Instance}
use feather_multiruntimenetw.Provider.Identifier.{
  pod_to_identifier, pod_and_container_to_identifier,
}
use feather_multiruntimenetw.Provider.Host.{Host, Provider}
use feather_multiruntimenetw.Provider.Instances.{
  kern, new_instance, with_image, on_backend, wrap_err, backend_name,
}
use feather_multiruntimenetw.Provider.Pods.{
  create_one, create_instances, start_instances, deploy, create_pod, is_k8s_app, all_containers,
}
use feather_multiruntimenetw.Provider.Pods.Tables.{Reads-kern}
use feather_multiruntimenetw.Provider.Pods.Lifecycle.{after-Reads}

-- Whatever the state, the configuration of the image names the backend.
abbrev pub NamesBackend : {W : Type 0} → Host W → Text → Text → Type 0
NamesBackend {W} h image name = (w : W) → Ends (λ r w'. r ≡ ok name) (h.image_get_config image w)

module _ {W : Type 0} (h : Host W) where
  -- The call made no instance, and returned no error.
  abbrev NilMade : Ret (Option Instance) → Type 0
  NilMade r = r ≡ ok none

  configured :
      (pod : Pod) (c : Container) (image name : Text) (s : Provider W) (o : Outcome (Ret Text × W))
      → lookup (backend_name name) s.backends ≡ none
      → Ends (λ r w'. r ≡ ok name) o
      → Ends
          (λ r t. NilMade r)
          ((kern (λ w. o) >>= λ im.
              or_return (wrap_err (codes "unable to get image config") im) λ backend.
                on_backend h pod
                  (record c { image = image })
                  (lookup (backend_name backend) s.backends))
            s)
  unfolding on_backend
  configured pod c image name s (done (ok n, w)) missing e =
      let same : n ≡ name = cc e in rw (same, missing) refl
  configured pod c image name s (done (err x, w)) missing e = absurd (no_error e)
    where
      no_error : err x ≡ ok name → ⊥
      no_error p = cc
  configured pod c image name s panic missing e = tt
  configured pod c image name s stuck missing e = tt

  new_instance-nil :
      (pod : Pod) (c : Container) (image name : Text) (s : Provider W)
      → contains (pod_and_container_to_identifier pod c.name) s.instances ≡ false
      → h.parse_docker_ref c.image ≡ some image
      → NamesBackend h image name
      → lookup (backend_name name) s.backends ≡ none
      → Ends (λ r t. NilMade r) (new_instance h pod c s)
  unfolding new_instance with_image
  new_instance-nil pod c image name s absent parsed names missing =
      rw (absent, parsed)
        (configured pod c image name s (h.image_get_config image s.world) missing (names s.world))

  create_instances_crash :
      (pod : Pod) (c : Container) (cs : List Container) (s : Provider W)
      → Ends (λ r t. NilMade r) (new_instance h pod c s)
      → Ends (λ r t. ⊥) (create_instances h pod (c ∷ cs) s)
  unfolding create_instances create_one
  create_instances_crash pod c cs s made = crashed (new_instance h pod c s) made
    where
      crashed :
          (o : Outcome (Ret (Option Instance) × Provider W))
          → Ends (λ r t. NilMade r) o
          → Ends
              (λ r t. ⊥)
              (elim o [
                | done r ↦
                    (create_one h (wrap_err (codes "failed to create instance for pod") r.0)
                        >>= λ one. or_return one λ i. create_instances h pod cs >>= λ others.
                            or_return others λ is. pure (ok (i ∷ is)))
                      r.1
                | panic ↦ panic
                | stuck ↦ stuck
              ])
      crashed (done (r, t)) e = rw e tt
      crashed panic e = tt
      crashed stuck e = tt

  deploy_crash :
      (pod : Pod) (c : Container) (cs : List Container) (image name : Text) (s : Provider W)
      → all_containers pod ≡ c ∷ cs
      → contains (pod_and_container_to_identifier pod c.name) s.instances ≡ false
      → h.parse_docker_ref c.image ≡ some image
      → NamesBackend h image name
      → lookup (backend_name name) s.backends ≡ none
      → Ends (λ r t. ⊥) (deploy h pod s)
  unfolding deploy
  deploy_crash pod c cs image name s first absent parsed names missing =
      after-Reads (λ r t. ⊥) s (kern (h.init_pod_network pod.namespace pod.name)) _ (Reads-kern _)
        λ r t e.
          let crash_at : Ends (λ r u. ⊥) (create_instances h pod (c ∷ cs) t) =
            create_instances_crash pod c cs t (
              new_instance-nil pod c image name t (rw (e.instances) absent) parsed names
                (rw (e.backends) missing)) in
          ended (create_instances h pod (all_containers pod) t) (rw first crash_at)
    where
      ended :
          (o : Outcome (Ret (List Instance) × Provider W))
          → Ends (λ r u. ⊥) o
          → Ends
              (λ r u. ⊥)
              (elim o [
                | done r ↦ or_return r.0 (start_instances h) r.1
                | panic ↦ panic
                | stuck ↦ stuck
              ])
      ended (done r) x = absurd x
      ended panic x = tt
      ended stuck x = tt

  -- Where the image of the first container of a pod that is deployed names a backend that is not
  -- enabled, and the container has no instance yet, creating the pod does not return an error
  -- nor anything else: the instance that was not made is used.
  pub create_pod_crash :
      (pod : Pod) (c : Container) (cs : List Container) (image name : Text) (s : Provider W)
      → is_k8s_app pod ≡ false
      → all_containers pod ≡ c ∷ cs
      → contains (pod_and_container_to_identifier pod c.name) s.instances ≡ false
      → h.parse_docker_ref c.image ≡ some image
      → NamesBackend h image name
      → lookup (backend_name name) s.backends ≡ none
      → Ends (λ r t. ⊥) (create_pod h pod s)
  unfolding create_pod
  create_pod_crash pod c cs image name s deployed first absent parsed names missing = rw deployed (
      deploy_crash pod c cs image name
        (record s { pods = insert (pod_to_identifier pod) pod s.pods }) first absent parsed names
        missing)
