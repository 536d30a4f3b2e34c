-- ===== src/Provider/Pods/Tables.antt =====
-- The calls of pkg/provider that leave the tables of the provider alone.
use feather_multiruntimenetw.Common.{
  ℕ, List, [], ◌∷◌, ◌≡◌, refl, ◌∙◌, Option, none, some, Text, text_eq, M, Ret, ok, err, Outcome,
  done, panic, stuck, Ends, ◌>>=◌, ◌>>◌, pure, crash, get, or_return, Bool-cases, inl, inr,
}
use feather_multiruntimenetw.Common.Dict.{contains}
use feather_multiruntimenetw.Provider.Spec.{Container, Pod, Instance}
use feather_multiruntimenetw.Provider.Identifier.{pod_and_container_to_identifier}
use feather_multiruntimenetw.Provider.Host.{Host, Provider}
use feather_multiruntimenetw.Provider.Instances.{
  kern, new_instance, with_image, parsed_image, on_backend,
}
use feather_multiruntimenetw.Provider.Pods.{
  create_one, create_instances, delete_found, delete_instances, delete_pod,
}

-- The tables are the same in both states.
pub record SameTables {W : Type 0} (s t : Provider W) : Type 0 where
  pub backends : t.backends ≡ s.backends
  pub pods : t.pods ≡ s.pods
  pub instances : t.instances ≡ s.instances

-- The call leaves the tables alone, from any state in which it returns.
pub record Reads {W A : Type 0} (m : M (Provider W) A) : Type 0 where
  pub at : (s : Provider W) → Ends (λ a t. SameTables s t) (m s)

module _ {W : Type 0} where
  pub SameTables-refl : (s : Provider W) → SameTables s s
  SameTables-refl s = record { backends = refl; pods = refl; instances = refl }

  pub SameTables-trans : (s t u : Provider W) → SameTables s t → SameTables t u → SameTables s u
  SameTables-trans s t u p q = record {
    backends = q.backends ∙ p.backends;
    pods = q.pods ∙ p.pods;
    instances = q.instances ∙ p.instances;
  }

  after :
      {B : Type 0} (s t : Provider W) (o : Outcome (B × Provider W))
      → SameTables s t
      → Ends (λ b u. SameTables t u) o
      → Ends (λ b u. SameTables s u) o
  after s t panic p h = tt
  after s t stuck p h = tt
  after s t (done (b, u)) p h = SameTables-trans s t u p h

  bind_at :
      {A B : Type 0} (s : Provider W) (o : Outcome (A × Provider W)) (f : A → M (Provider W) B)
      → Ends (λ a t. SameTables s t) o
      → ((a : A) → Reads (f a))
      → Ends (λ b u. SameTables s u) (elim o [ done r ↦ f r.0 r.1 | panic ↦ panic | stuck ↦ stuck ])
  bind_at s panic f h g = tt
  bind_at s stuck f h g = tt
  bind_at s (done (a, t)) f h g = after s t (f a t) h ((g a).at t)

  kern_at :
      {A : Type 0} (s : Provider W) (o : Outcome (A × W))
      → Ends
          (λ a t. SameTables s t)
          (elim o [ done r ↦ done (r.0, record s { world = r.1 }) | panic ↦ panic | stuck ↦ stuck ])
  kern_at s panic = tt
  kern_at s stuck = tt
  kern_at s (done (a, w)) = record { backends = refl; pods = refl; instances = refl }

  pub Reads-bind :
      {A B : Type 0} {m : M (Provider W) A} {f : A → M (Provider W) B}
      → Reads m
      → ((a : A) → Reads (f a))
      → Reads (m >>= f)
  Reads-bind {m = m} {f = f} h g = record { at = λ s. bind_at s (m s) f (h.at s) g }

  pub Reads-then :
      {A B : Type 0} {m : M (Provider W) A} {n : M (Provider W) B}
      → Reads m
      → Reads n
      → Reads (m >> n)
  Reads-then h g = Reads-bind h (λ _. g)

  pub Reads-pure : {A : Type 0} (a : A) → Reads {W = W} (pure a)
  Reads-pure a = record { at = λ s. SameTables-refl s }

  pub Reads-crash : {A : Type 0} → Reads {W = W} {A = A} crash
  Reads-crash = record { at = λ s. tt }

  pub Reads-get : Reads {W = W} get
  Reads-get = record { at = λ s. SameTables-refl s }

  pub Reads-kern : {A : Type 0} (m : M W A) → Reads (kern m)
  Reads-kern m = record { at = λ s. kern_at s (m s.world) }

  pub Reads-or_return :
      {A B : Type 0} (r : Ret A) (f : A → M (Provider W) (Ret B))
      → ((a : A) → Reads (f a))
      → Reads (or_return r f)
  Reads-or_return (ok a) f h = h a
  Reads-or_return (err e) f h = Reads-pure (err e)

pub ruleset reads =
    (Reads-bind, Reads-then, Reads-pure, Reads-crash, Reads-get, Reads-kern, Reads-or_return)

module _ {W : Type 0} (h : Host W) where
  on_backend-Reads :
      (pod : Pod) (c : Container) (backend : Option ℕ) → Reads (on_backend h pod c backend)
  unfolding on_backend
  on_backend-Reads pod c none = search reads depth 10
  on_backend-Reads pod c (some backend) = search reads depth 10

  with_image-Reads : (pod : Pod) (c : Container) (image : Text) → Reads (with_image h pod c image)
  unfolding with_image
  with_image-Reads pod c image = search (reads, on_backend-Reads) depth 10

  parsed_image-Reads :
      (pod : Pod) (c : Container) (image : Option Text) → Reads (parsed_image h pod c image)
  parsed_image-Reads pod c none = Reads-pure _
  parsed_image-Reads pod c (some image) = with_image-Reads pod c image

  pub new_instance-Reads : (pod : Pod) (c : Container) → Reads (new_instance h pod c)
  unfolding new_instance
  new_instance-Reads pod c = record {
    at = λ s.
        elim (Bool-cases (contains (pod_and_container_to_identifier pod c.name) s.instances)) [
          | inl there ↦ rw there (SameTables-refl s)
          | inr absent ↦ rw absent ((parsed_image-Reads pod c (h.parse_docker_ref c.image)).at s)
        ];
  }

  pub create_one-Reads : (made : Ret (Option Instance)) → Reads (create_one h made)
  unfolding create_one
  create_one-Reads (err e) = Reads-pure _
  create_one-Reads (ok none) = Reads-crash
  create_one-Reads (ok (some i)) = search reads depth 10

  pub create_instances-Reads : (pod : Pod) (cs : List Container) → Reads (create_instances h pod cs)
  unfolding create_instances
  create_instances-Reads pod [] = Reads-pure _
  create_instances-Reads pod (c ∷ cs) = Reads-bind (new_instance-Reads pod c) λ made.
      Reads-bind (create_one-Reads _) λ one. Reads-or_return one _ λ i.
        Reads-bind (create_instances-Reads pod cs)
          λ others. Reads-or_return others _ λ is. Reads-pure _

  delete_found-Reads : (i : Option Instance) → Reads (delete_found h i)
  unfolding delete_found
  delete_found-Reads none = Reads-pure _
  delete_found-Reads (some i) = search reads depth 6

  delete_instances-Reads : (pod : Pod) (cs : List Container) → Reads (delete_instances h pod cs)
  unfolding delete_instances
  delete_instances-Reads pod [] = Reads-pure _
  delete_instances-Reads pod (c ∷ cs) =
      Reads-bind Reads-get λ s. Reads-then (delete_found-Reads _) (delete_instances-Reads pod cs)

  -- From every state in which deleting a pod returns, the provider's backends, pods and instances
  -- are as they were before: the pod and its instances stay in the tables.
  pub delete_pod-Reads : (pod : Pod) → Reads (delete_pod h pod)
  unfolding delete_pod
  delete_pod-Reads pod = search (reads, delete_instances-Reads) depth 10
