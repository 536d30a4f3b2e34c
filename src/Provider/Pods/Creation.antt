-- ===== src/Provider/Pods/Creation.antt =====
-- What CreatePod of pkg/provider/pod.go leaves in the tables, on success and on an error.
use feather_multiruntimenetw.Common.{
  ℕ, List, [], ◌∷◌, ◌≡◌, refl, true, Option, none, some, Text, text_eq, M, Ret, ok, err, Outcome,
  done, panic, stuck, Ends, ◌>>=◌, pure, or_return, Bool-cases, inl, inr, All,
}
use feather_multiruntimenetw.Common.Ensures.{
  Ensures, Ensures-or_error, Ensures-seq, Ensures-bind, Ensures-crash,
}
use feather_multiruntimenetw.Common.Dict.{contains, lookup, insert}
use feather_multiruntimenetw.Provider.Spec.{Container, Pod, Instance}
use feather_multiruntimenetw.Provider.Identifier.{pod_and_container_to_identifier}
use feather_multiruntimenetw.Provider.Host.{Host, Provider}
use feather_multiruntimenetw.Provider.Instances.{
  kern, new_instance, wrap_err, on_backend, with_image, parsed_image, backend_name, mount_volumes,
  volumes_by_name,
}
use feather_multiruntimenetw.Provider.Pods.{create_one, create_instances, start_instances}
use feather_multiruntimenetw.Provider.Pods.Tables.{Reads-kern}
use feather_multiruntimenetw.Provider.Pods.Lifecycle.{
  HasInstance, after-Reads, contains-insert_self, contains-insert,
}

-- The instance that was made, if any, is that of the container.
abbrev IsNew : Pod → Container → Ret (Option Instance) → Type 0
IsNew pod c (ok (some i)) = i.id ≡ pod_and_container_to_identifier pod c.name
IsNew pod c _ = Unit

abbrev IsOne : Pod → Container → Ret Instance → Type 0
IsOne pod c (ok i) = i.id ≡ pod_and_container_to_identifier pod c.name
IsOne pod c (err e) = Unit

-- The instances are those of the containers, in their order.
abbrev pub AreNew : Pod → List Container → List Instance → Type 0
AreNew pod [] [] = Unit
AreNew pod [] (i ∷ is) = ⊥
AreNew pod (c ∷ cs) [] = ⊥
AreNew pod (c ∷ cs) (i ∷ is) =
    (i.id ≡ pod_and_container_to_identifier pod c.name) × AreNew pod cs is

abbrev pub AreAll : Pod → List Container → Ret (List Instance) → Type 0
AreAll pod cs (ok is) = AreNew pod cs is
AreAll pod cs (err e) = Unit

module _ {W : Type 0} (h : Host W) where
  on_backend-IsNew :
      (pod : Pod) (c : Container) (image : Text) (backend : Option ℕ)
      → Ensures
          (λ r (t : Provider W). IsNew pod c r)
          (on_backend h pod (record c { image = image }) backend)
  unfolding on_backend
  on_backend-IsNew pod c image none = record { at = λ s. tt }
  on_backend-IsNew pod c image (some backend) =
      Ensures-bind (kern (mount_volumes h pod (volumes_by_name [] pod.volumes) c.volume_mounts))
        λ mounts. Ensures-or_error (IsNew pod c) mounts _ (λ e. tt) λ ms. record { at = λ s. refl }

  with_image-IsNew :
      (pod : Pod) (c : Container) (image : Option Text)
      → Ensures (λ r (t : Provider W). IsNew pod c r) (parsed_image h pod c image)
  unfolding with_image
  with_image-IsNew pod c none = record { at = λ s. tt }
  with_image-IsNew pod c (some image) = record {
    at = λ s.
        (Ensures-bind {P = λ r t. IsNew pod c r} (kern (h.image_get_config image)) λ im.
            Ensures-or_error (IsNew pod c) (wrap_err _ im) _ (λ e. tt)
              λ backend. on_backend-IsNew pod c image (lookup (backend_name backend) s.backends)).at
          s;
  }

  new_instance-IsNew :
      (pod : Pod) (c : Container)
      → Ensures (λ r (t : Provider W). IsNew pod c r) (new_instance h pod c)
  unfolding new_instance
  new_instance-IsNew pod c = record {
    at = λ s.
        elim (Bool-cases (contains (pod_and_container_to_identifier pod c.name) s.instances)) [
          | inl there ↦ rw there tt
          | inr absent ↦ rw absent ((with_image-IsNew pod c (h.parse_docker_ref c.image)).at s)
        ];
  }

  create_one-IsOne :
      (pod : Pod) (c : Container) (text : Text) (made : Ret (Option Instance))
      → IsNew pod c made
      → Ensures (λ r (t : Provider W). IsOne pod c r) (create_one h (wrap_err text made))
  unfolding create_one
  create_one-IsOne pod c text (err e) n = record { at = λ s. tt }
  create_one-IsOne pod c text (ok none) n = Ensures-crash
  create_one-IsOne pod c text (ok (some i)) n =
      Ensures-bind (kern (h.create_instance i.backend i)) λ created.
        Ensures-or_error (IsOne pod c) (wrap_err _ created) _ (λ e. tt) λ u. record { at = λ s. n }

  with_others :
      (pod : Pod) (c : Container) (cs : List Container) (i : Instance)
      (others : Ret (List Instance))
      → IsOne pod c (ok i)
      → AreAll pod cs others
      → Ensures
          (λ r (t : Provider W). AreAll pod (c ∷ cs) r)
          (or_return others λ is. pure (ok (i ∷ is)))
  with_others pod c cs i (err e) o a = record { at = λ s. tt }
  with_others pod c cs i (ok is) o a = record { at = λ s. (o, a) }

  with_one :
      (pod : Pod) (c : Container) (cs : List Container) (one : Ret Instance)
      → IsOne pod c one
      → (rest : M (Provider W) (Ret (List Instance))) → Ensures (λ r t. AreAll pod cs r) rest
      → Ensures
          (λ r t. AreAll pod (c ∷ cs) r)
          (or_return one λ i. rest >>= λ others. or_return others λ is. pure (ok (i ∷ is)))
  with_one pod c cs (err e) o rest r = record { at = λ s. tt }
  with_one pod c cs (ok i) o rest r =
      Ensures-seq (AreAll pod cs) r λ others a. with_others pod c cs i others o a

  pub create_instances-AreAll :
      (pod : Pod) (cs : List Container)
      → Ensures (λ r (t : Provider W). AreAll pod cs r) (create_instances h pod cs)
  unfolding create_instances
  create_instances-AreAll pod [] = record { at = λ s. tt }
  create_instances-AreAll pod (c ∷ cs) =
      Ensures-seq (IsNew pod c) (new_instance-IsNew pod c) λ made n.
        Ensures-seq (IsOne pod c) (create_one-IsOne pod c _ made n) λ one o.
          with_one pod c cs one o (create_instances h pod cs) (create_instances-AreAll pod cs)

  -- Starting instances keeps those that are in the table.
  start_instances_kept :
      (k : Text) (is : List Instance) (s : Provider W)
      → contains k s.instances ≡ true
      → Ends (λ r t. contains k t.instances ≡ true) (start_instances h is s)
  unfolding start_instances
  start_instances_kept k [] s there = there
  start_instances_kept k (i ∷ is) s there =
      after-Reads (λ r t. contains k t.instances ≡ true) s (kern (h.start_instance i.backend i)) _
        (Reads-kern _)
        λ r t e.
          start_instances_kept k is (record t { instances = insert i.id i t.instances })
            (contains-insert k i.id i t.instances (rw (e.instances) there))

  both :
      {A : Type 0} (P Q : Provider W → Type 0) (o : Outcome (A × Provider W))
      → Ends (λ r t. P t) o
      → Ends (λ r t. Q t) o
      → Ends (λ r t. P t × Q t) o
  both P Q (done r) p q = (p, q)
  both P Q panic p q = tt
  both P Q stuck p q = tt

  pub start_instances-All :
      (pod : Pod) (cs : List Container) (is : List Instance) (s : Provider W)
      → AreNew pod cs is
      → Ends (λ r t. All (HasInstance pod t) cs) (start_instances h is s)
  unfolding start_instances
  start_instances-All pod [] [] s a = tt
  start_instances-All pod [] (i ∷ is) s a = absurd a
  start_instances-All pod (c ∷ cs) [] s a = absurd a
  start_instances-All pod (c ∷ cs) (i ∷ is) s a =
      after-Reads (λ r t. All (HasInstance pod t) (c ∷ cs)) s (kern (h.start_instance i.backend i))
        _ (Reads-kern _)
        λ r t e.
          let u : Provider W = record t { instances = insert i.id i t.instances } in
          both (λ t. HasInstance pod t c) (λ t. All (HasInstance pod t) cs) (start_instances h is u)
            (start_instances_kept (pod_and_container_to_identifier pod c.name) is u
              (rw (← a.0) (contains-insert_self i.id i t.instances)))
            (start_instances-All pod cs is u a.1)
