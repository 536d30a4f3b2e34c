-- ===== src/Fledge/Cgroups.antt =====
-- Control groups: pkg/fledge/CgroupManagement.go.
pub mod Missing
use feather_multiruntimenetw.Common.{
  ℕ, List, [], ◌∷◌, ◌++◌, Bool, true, false, ◌||◌, Option, none, some, Text, text_eq, codes, M,
  Outcome, done, panic, stuck, ◌>>=◌, ◌>>◌, pure, crash, get, modify, if◌then◌else◌,
}
use feather_multiruntimenetw.Common.Dict.{Dict, lookup, insert, contains}

-- The packages cgroups, of version 1, and cgroups/v2. A group and a manager are numbers, and `none`
-- if they are nil. Beside a manager stands whether loading it failed. A limit of processors is
-- a number of hundred-thousandths.
pub record Controller (W : Type 0) : Type 0 where
  pub is_unified : M W Bool
  pub new_main_group : M W (Option ℕ)
  pub new_systemd : Text → M W (Unit {0})
  pub load_systemd : Text → M W (Option ℕ × Bool)
  pub delete_systemd : Option ℕ → M W (Unit {0})
  pub update_memory : Option ℕ → ℕ → M W (Unit {0})
  pub update_cpu : Option ℕ → ℕ → ℕ → M W (Unit {0})
  pub add_proc : Option ℕ → ℕ → M W (Unit {0})
  pub new_group : ℕ → Text → M W (Option ℕ)
  pub delete_group : ℕ → M W (Unit {0})
  pub group_memory : ℕ → ℕ → M W (Unit {0})
  pub group_cpu : ℕ → ℕ → ℕ → M W (Unit {0})
  pub group_add_proc : ℕ → ℕ → M W (Unit {0})

-- The variables of the package. An entry of the map is a pointer, which may be nil, to a group,
-- which may be nil.
pub record Cgroups (W : Type 0) : Type 0 where
  pub cg_v2 : Bool
  pub main_group : Option ℕ
  pub cgroups : Dict Text (Option (Option ℕ))
  pub world : W

-- `GetCgroup`
unfoldable pub get_cgroup : Text → Text → Text → Text
get_cgroup namespace podname container = namespace ++ codes "-" ++ podname ++ codes "-" ++ container

abbrev pub slice : Text → Text
slice cg_name = cg_name ++ codes ".slice"

abbrev pub is_some : {A : Type 0} → Option A → Bool
is_some none = false
is_some (some a) = true

-- Whether the value of an entry is nil, which it also is where the key is missing.
abbrev pub is_nil : Option (Option (Option ℕ)) → Bool
is_nil none = true
is_nil (some none) = true
is_nil (some (some group)) = false

-- `exists || val == nil`
abbrev pub exists_or_nil : Option (Option (Option ℕ)) → Bool
exists_or_nil entry = is_some entry || is_nil entry

-- The group behind an entry of the map, each pointer of which is dereferenced.
abbrev pub entry_group : Option (Option (Option ℕ)) → Option ℕ
entry_group none = none
entry_group (some none) = none
entry_group (some (some group)) = group

module _ {W : Type 0} where
  abbrev lifted : {A : Type 0} → Cgroups W → Outcome (A × W) → Outcome (A × Cgroups W)
  lifted s (done r) = done (r.0, record s { world = r.1 })
  lifted s panic = panic
  lifted s stuck = stuck

  abbrev pub kern : {A : Type 0} → M W A → M (Cgroups W) A
  kern m s = lifted s (m s.world)

  abbrev pub with_group : {A : Type 0} → Option ℕ → (ℕ → M (Cgroups W) A) → M (Cgroups W) A
  with_group none f = crash
  with_group (some group) f = f group

module _ {W : Type 0} (k : Controller W) where
  -- `InitCgroups`
  unfoldable pub init_cgroups : M (Cgroups W) (Unit {0})
  init_cgroups = do
    unified ← kern k.is_unified
    let v2 = modify (λ s. record s { cg_v2 = true })
    let v1 = kern k.new_main_group >>= λ group.
        modify (λ s. record s { cg_v2 = false; main_group = group; cgroups = [] })
    if unified then v2 else v1

  -- `CreateCgroup`, of version 1 and of version 2.
  unfoldable pub create_v1 : Text → M (Cgroups W) (Unit {0})
  create_v1 cg_name = do
    s ← get
    with_group s.main_group λ main. (do
      group ← kern (k.new_group main cg_name)
      modify λ t. record t { cgroups = insert cg_name (some group) t.cgroups })

  unfoldable pub create_cgroup : Text → M (Cgroups W) (Unit {0})
  create_cgroup cg_name = do
    s ← get
    if s.cg_v2 then kern (k.new_systemd (slice cg_name)) else create_v1 cg_name

  abbrev is_loaded : Option ℕ × Bool → Bool
  is_loaded (some m, false) = true
  is_loaded _ = false

  -- `CgroupExists`
  unfoldable pub cgroup_exists : Text → M (Cgroups W) Bool
  cgroup_exists cg_name = do
    s ← get
    let v2 = kern (k.load_systemd (slice cg_name)) >>= λ r. pure (is_loaded r)
    if s.cg_v2 then v2 else pure (exists_or_nil (lookup cg_name s.cgroups))

  -- `CreateCgroupIfNotExists`
  unfoldable pub create_cgroup_if_not_exists : Text → Text → Text → M (Cgroups W) Text
  create_cgroup_if_not_exists namespace podname container = do
    let cg_name = get_cgroup namespace podname container
    exists ← cgroup_exists cg_name
    made ← if exists then pure tt else create_cgroup cg_name
    pure cg_name

  -- The group of a name, of version 1.
  unfoldable pub on_group : Text → (ℕ → M W (Unit {0})) → M (Cgroups W) (Unit {0})
  on_group cg_name f = do
    s ← get
    with_group (entry_group (lookup cg_name s.cgroups)) λ group. kern (f group)

  -- `DeleteCgroup`
  unfoldable pub delete_cgroup : Text → M (Cgroups W) (Unit {0})
  delete_cgroup cg_name = do
    s ← get
    let v2 = kern (k.load_systemd (slice cg_name)) >>= λ r. kern (k.delete_systemd r.0)
    let v1 =
        on_group cg_name k.delete_group
        >> modify (λ t. record t { cgroups = insert cg_name none t.cgroups })
    if s.cg_v2 then v2 else v1

  -- `SetMemoryLimit`
  unfoldable pub set_memory_limit : Text → ℕ → M (Cgroups W) (Unit {0})
  set_memory_limit cg_name limit = do
    s ← get
    let v2 = kern (k.load_systemd (slice cg_name)) >>= λ r.
        if r.1 then pure tt else kern (k.update_memory r.0 limit)
    let v1 = on_group cg_name λ group. k.group_memory group limit
    if s.cg_v2 then v2 else v1

  -- `SetCpuLimit`; of version 2 the limit is set only if loading failed.
  unfoldable pub set_cpu_limit : Text → ℕ → M (Cgroups W) (Unit {0})
  set_cpu_limit cg_name quota = do
    s ← get
    let v2 = kern (k.load_systemd (slice cg_name)) >>= λ r.
        if r.1 then kern (k.update_cpu r.0 quota 100000) else pure tt
    let v1 = on_group cg_name λ group. k.group_cpu group quota 100000
    if s.cg_v2 then v2 else v1

  -- `MovePid`
  unfoldable pub move_pid : Text → ℕ → M (Cgroups W) (Unit {0})
  move_pid cg_name pid = do
    s ← get
    let v2 = kern (k.load_systemd (slice cg_name)) >>= λ r. kern (k.add_proc r.0 pid)
    let v1 = on_group cg_name λ group. k.group_add_proc group pid
    if s.cg_v2 then v2 else v1
