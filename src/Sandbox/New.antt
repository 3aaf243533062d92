-- ===== src/Sandbox/New.antt =====
-- sandbox/sandbox.go: New and selectBackend, and the whole of Config in sandbox/types.go.
pub mod Laws
pub mod Pools
use emberbox.Sandbox.Pool.Methods.{start}
use emberbox.Prelude.{
  false, [], Text, text, ◌++◌, Option, none, some, is_empty, text_eq, if◌then◌else◌,
}
use emberbox.Prelude.Int.{pos}
use emberbox.Errors.{Error, plain}
use emberbox.Tool.{Tools}
use emberbox.Sandbox.{Backend}
use emberbox.Sandbox.Host.{HostBackend, new_host_backend}
use emberbox.Sandbox.Firecracker.{FirecrackerConfig, new_firecracker_backend}
use emberbox.Sandbox.Pool.Sections.{Pool, PoolConfig}

pub record Config (W : Type 0) : Type 1 where
  pub backend : Option Backend
  pub mode : Text
  pub kernel_path : Text
  pub rootfs_path : Text
  pub tools : Option (Tools W)
  pub pool : PoolConfig

-- ModeHost and ModeFirecracker.
unfoldable pub mode_host : Text
mode_host = text "host"

unfoldable pub mode_firecracker : Text
mode_firecracker = text "firecracker"

-- The configuration that selectBackend leaves to the defaults of NewFirecrackerBackend.
abbrev pub unset : FirecrackerConfig
unset = record {
  firecracker_binary = [];
  kernel_path = [];
  rootfs_path = [];
  rootfs_read_write = false;
  kernel_boot_args = [];
  agent_port = 0;
  guest_cid = pos 0;
  default_memory_mb = pos 0;
  default_vcpus = pos 0;
  work_root = [];
  boot_timeout = pos 0;
  stop_timeout = pos 0;
}

-- The dynamic type of the Backend that is chosen.
pub data Choice (W : Type 0) : Type 1 where
  custom : Backend → Choice W
  host_choice : HostBackend W → Choice W
  firecracker_choice : FirecrackerConfig → Choice W

pub data Selected (W : Type 0) : Type 1 where
  selected : Choice W → Selected W
  refused : Error → Selected W

abbrev pub no_tools : Error
no_tools =
    plain (text "emberbox/sandbox: Config.Tools is required when using the default HostBackend")

-- `quote` is %q.
abbrev pub unknown_mode : (Text → Text) → Text → Error
unknown_mode quote mode = plain (text "emberbox/sandbox: unknown mode " ++ quote mode)

module _ {W : Type 0} (getwd temp_dir : Text) (quote : Text → Text) where
  abbrev pub select_host : Option (Tools W) → Selected W
  select_host none = refused no_tools
  select_host (some tools) = selected (host_choice (new_host_backend tools getwd))

  abbrev pub derived_config : Config W → FirecrackerConfig
  derived_config cfg = new_firecracker_backend temp_dir (record unset {
    kernel_path = cfg.kernel_path;
    rootfs_path = cfg.rootfs_path;
    default_memory_mb = cfg.pool.default_memory_mb;
    default_vcpus = cfg.pool.default_vcpus;
  })

  abbrev pub select_mode : Config W → Text → Selected W
  select_mode cfg mode =
      if text_eq mode mode_host
      then select_host cfg.tools
      else (if text_eq mode mode_firecracker
          then selected (firecracker_choice (derived_config cfg))
          else refused (unknown_mode quote mode))

  abbrev pub select_by : Config W → Option Backend → Selected W
  select_by cfg (some b) = selected (custom b)
  select_by cfg none = select_mode cfg (if is_empty cfg.mode then mode_host else cfg.mode)

  -- selectBackend.
  unfoldable pub select_backend : Config W → Selected W
  select_backend cfg = select_by cfg cfg.backend

-- What New returns: a pool over a backend, with the world that its backend is left in.
pub data NewPool : Type 1 where
  failed : Error → NewPool
  made : (B : Backend) → Pool B → B.World → NewPool

module _ {W : Type 0} (getwd temp_dir : Text) (quote : Text → Text)
    (realize : Choice W → (B : Backend) × B.World) where
  abbrev pub start_on : PoolConfig → (B : Backend) × B.World → NewPool
  start_on cfg (B, w) = let (p, w') = start B cfg w in made B p w'

  abbrev pub start_selected : PoolConfig → Selected W → NewPool
  start_selected cfg (refused e) = failed e
  start_selected cfg (selected c) = start_on cfg (realize c)

  -- New. `realize` gives the backend that a choice stands for, with its world.
  unfoldable pub new_pool : Config W → NewPool
  new_pool cfg = start_selected cfg.pool (select_backend getwd temp_dir quote cfg)
