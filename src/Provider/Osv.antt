-- ===== src/Provider/Osv.antt =====
-- OSvBackend of pkg/provider/backend_osv.go: its state, and what it calls.
pub mod Paths
pub mod Mounts
pub mod Images
pub mod Stop
pub mod Create
pub mod Start
pub mod Core
pub mod Changes
pub mod Lifecycle
pub mod Exits
pub mod Moves
pub mod Steps
pub mod Histories
pub mod Told
pub mod Answers
pub mod Boots
pub mod Starts
pub mod Refused
use feather_multiruntimenetw.Common.{
  ℕ, List, [], ◌∷◌, Bool, Option, none, some, Text, text_eq, M, Ret, ok, err, Error, Outcome, done,
  panic, stuck, library, message, wrapped, codes,
}
use feather_multiruntimenetw.Common.Dict.{Dict}

-- `OSvExtras`
pub record OsvExtras : Type 0 where
  pub vm_proc : List (List Text)
  pub vm_args : List Text
  pub vm_opts : List Text

-- `ContainerState`, of whose members at most one is set: the time at which it was started; and
-- of an end the exit code, the message, and the times of the start and of the end.
pub data VmState : Type 0 where
  unset waiting : VmState
  running : ℕ → VmState
  terminated : ℕ → Text → ℕ → ℕ → VmState

-- Of a `ContainerStatus` what the backend writes and reads.
pub record VmStatus : Type 0 where
  pub name : Text
  pub state : VmState
  pub last_termination_state : VmState
  pub image : Text
  pub container_id : Text

-- `qemu.VMConfig`, less its constant members; of a NAT rule the ports of the host and the guest.
pub record VmConfig : Type 0 where
  pub name : Text
  pub cmd : Text
  pub instance_dir : Text
  pub monitor : Text
  pub config_file : Text
  pub image : Text
  pub memory : ℕ
  pub cpus : ℕ
  pub networking : Text
  pub bridge : Text
  pub nat_rules : List (Text × Text)
  pub mac : Text
  pub vnc_file : Text

-- What the backend reads of `ref.Ref` and of `types.Descriptor`.
pub record ImageRef : Type 0 where
  pub registry : Text
  pub tag : Text
  pub common_name : Text
  pub handle : ℕ

pub record Descriptor : Type 0 where
  pub media_type : Text
  pub handle : ℕ

-- `capstan.ImageInfo`, less its constant members.
pub record ImageInfo : Type 0 where
  pub version : Text
  pub created : ℕ

-- The packages capstan, qemu, regclient, storage, system, os, os/exec, tar and the pod network
-- manager, over a state of the machine. A command, a context, a file and a reader are numbers. Of
-- `CreateVMTun` and `GetGatewayAddress` stand the texts that are used, which are also there beside
-- an error.
pub record Machine (W : Type 0) : Type 0 where
  pub config_dir : Text
  pub repo_path : Text
  pub search_instance : Text → M W (Text × Text)
  pub stop_vm : Text → M W (Ret (Unit {0}))
  pub delete_vm : Text → M W (Ret (Unit {0}))
  pub store_config : VmConfig → M W (Ret (Unit {0}))
  pub load_config : Text → M W (Ret VmConfig)
  pub vm_command : VmConfig → List Text → M W (Ret ℕ)
  pub start_command : ℕ → M W (Ret (Unit {0}))
  pub with_cancel : M W ℕ
  pub cancel : ℕ → M W (Unit {0})
  pub start_process : ℕ → Text → List Text → M W (Ret (Unit {0}))
  pub exists : Text → M W Bool
  pub mkdir_all : Text → M W (Ret (Unit {0}))
  pub remove_all : Text → M W (Ret (Unit {0}))
  pub create_file : Text → M W (Ret ℕ)
  pub write_to : ℕ → Text → M W (Ret (Unit {0}))
  pub copy_to : ℕ → ℕ → M W (Ret (Unit {0}))
  pub close_file : ℕ → M W (Unit {0})
  pub write_file : Text → Text → M W (Ret (Unit {0}))
  pub image_hypervisor : Text → M W (Ret Text)
  pub new_ref : Text → Ret ImageRef
  pub marshal_info : ImageInfo → Ret Text
  pub image_layers : ImageRef → M W (Ret (List Descriptor))
  pub blob_get : ImageRef → Descriptor → M W (Ret ℕ)
  pub to_tar_reader : ℕ → M W (Ret ℕ)
  pub get_tar_reader : ℕ → M W (Ret ℕ)
  pub next_name : ℕ → M W (Ret Text)
  pub create_vm_tun : Text → Text → Text → M W (Text × Text × Text)
  pub gateway_address : Text → Text → M W Text
  pub available_port : M W (Ret ℕ)
  pub now : M W ℕ
  pub config_map_data : ℕ → Dict Text Text
  pub new_container_logger : Text → M W (Ret ℕ)

-- The routine that waits for a virtual machine: the address of the status that it writes, the
-- context that it cancels, and the file that it closes.
pub record Watcher : Type 0 where
  pub status : ℕ
  pub context : ℕ
  pub logs_file : ℕ
  pub id : Text

-- `OSvBackend`; statuses are pointers into `memory`, and `watchers` are the routines that wait.
pub record Osv (W : Type 0) : Type 0 where
  pub instance_statuses : Dict Text ℕ
  pub instance_extras : Dict Text OsvExtras
  pub memory : List VmStatus
  pub watchers : List Watcher
  pub world : W

-- `NewOSvBackend`
abbrev pub new_osv_backend : {W : Type 0} → W → Osv W
new_osv_backend w = record {
  instance_statuses = [];
  instance_extras = [];
  memory = [];
  watchers = [];
  world = w;
}

module _ {W : Type 0} where
  abbrev pub lifted : {A : Type 0} → Osv W → Outcome (A × W) → Outcome (A × Osv W)
  lifted s (done r) = done (r.0, record s { world = r.1 })
  lifted s panic = panic
  lifted s stuck = stuck

  -- A call that works on the machine alone.
  abbrev pub on_machine : {A : Type 0} → M W A → M (Osv W) A
  on_machine m s = lifted s (m s.world)

-- `errors.Wrap(err, "osv")`
abbrev pub wrap_osv : {A : Type 0} → Ret A → Ret A
wrap_osv (ok a) = ok a
wrap_osv (err e) = err (wrapped (codes "osv") e)

abbrev pub osv_error : {A : Type 0} → Text → Ret A
osv_error text = err (wrapped (codes "osv") (message text))
