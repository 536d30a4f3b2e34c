-- ===== src/Fledge/Cgroups/Missing.antt =====
-- CreateCgroupIfNotExists of pkg/fledge/CgroupManagement.go, before a limit is set.
use feather_multiruntimenetw.Common.{
  ℕ, ◌≡◌, refl, true, false, Option, none, some, Text, text_eq, panic, done, ◌>>=◌,
}
use feather_multiruntimenetw.Common.Dict.{Dict, lookup}
use feather_multiruntimenetw.Fledge.Cgroups.{
  Controller, Cgroups, get_cgroup, exists_or_nil, cgroup_exists, create_cgroup_if_not_exists,
  on_group, set_memory_limit,
}

nil_exists : (entry : Option (Option (Option ℕ))) → exists_or_nil entry ≡ true
nil_exists none = refl
nil_exists (some entry) = refl

-- The variables of the package with version 1 of control groups.
abbrev pub version_1 : {W : Type 0} → Option ℕ → Dict Text (Option (Option ℕ)) → W → Cgroups W
version_1 main groups w = record { cg_v2 = false; main_group = main; cgroups = groups; world = w }

module _ {W : Type 0} (k : Controller W) where
  makes_nothing :
      (namespace podname container : Text) (main : Option ℕ)
      (groups : Dict Text (Option (Option ℕ))) (w : W)
      → create_cgroup_if_not_exists k namespace podname container (version_1 main groups w)
        ≡ done (get_cgroup namespace podname container, version_1 main groups w)
  unfolding create_cgroup_if_not_exists cgroup_exists
  makes_nothing namespace podname container main groups w =
      rw (nil_exists (lookup (get_cgroup namespace podname container) groups)) refl

  no_group :
      (cg_name : Text) (limit : ℕ) (main : Option ℕ) (groups : Dict Text (Option (Option ℕ)))
      (w : W)
      → lookup cg_name groups ≡ none
      → set_memory_limit k cg_name limit (version_1 main groups w) ≡ panic
  unfolding set_memory_limit on_group
  no_group cg_name limit main groups w missing = rw missing refl

  -- With version 1 of control groups, where the group of a container has not been made, making it if
  -- it does not exist and then setting its memory limit panics.
  pub set_memory_limit_panics :
      (namespace podname container : Text) (limit : ℕ) (main : Option ℕ)
      (groups : Dict Text (Option (Option ℕ))) (w : W)
      → lookup (get_cgroup namespace podname container) groups ≡ none
      → (create_cgroup_if_not_exists k namespace podname container >>= λ cg_name.
            set_memory_limit k cg_name limit)
          (version_1 main groups w)
        ≡ panic
  set_memory_limit_panics namespace podname container limit main groups w missing =
      rw (makes_nothing namespace podname container main groups w, ◌>>=◌)
        (no_group (get_cgroup namespace podname container) limit main groups w missing)
