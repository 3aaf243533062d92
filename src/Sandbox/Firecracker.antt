-- ===== src/Sandbox/Firecracker.antt =====
-- sandbox/firecracker.go: the configuration of the Firecracker backend.
pub mod Machine
pub mod Boot
pub mod Laws
pub mod Order
pub mod Keeping
pub mod Identities
pub mod Retirement
pub mod Leaks
pub mod Config
pub mod EndToEnd
use emberbox.Prelude.{
  Text, text, ℕ, ◌++◌, ◌==◌, List, [], ◌∷◌, Bool, Option, none, some, is_empty, join, if◌then◌else◌,
}
use emberbox.Prelude.Int.{ℤ, pos}
use emberbox.Errors.{Error, plain}
use emberbox.Sandbox.Pool.Sections.{or_default}

-- FirecrackerConfig, less its logger.
pub record FirecrackerConfig : Type 0 where
  pub firecracker_binary : Text
  pub kernel_path : Text
  pub rootfs_path : Text
  pub rootfs_read_write : Bool
  pub kernel_boot_args : Text
  pub agent_port : ℕ
  pub guest_cid : ℤ
  pub default_memory_mb : ℤ
  pub default_vcpus : ℤ
  pub work_root : Text
  pub boot_timeout : ℤ
  pub stop_timeout : ℤ

unfoldable pub or_text : Text → Text → Text
or_text s d = if is_empty s then d else s

-- A quiet boot.
unfoldable boot_args_default : Text
boot_args_default =
    text "console=ttyS0 reboot=k panic=1 pci=off i8042.noaux i8042.nomux i8042.nopnp i8042.dumbkbd"

-- NewFirecrackerBackend; `temp_dir` is os.TempDir().
unfoldable pub new_firecracker_backend : Text → FirecrackerConfig → FirecrackerConfig
unfolding or_text boot_args_default
new_firecracker_backend temp_dir cfg = record cfg {
  firecracker_binary = or_text cfg.firecracker_binary (text "firecracker");
  agent_port = if cfg.agent_port == 0 then 10000 else cfg.agent_port;
  guest_cid = or_default cfg.guest_cid (pos 3);
  default_memory_mb = or_default cfg.default_memory_mb (pos 128);
  default_vcpus = or_default cfg.default_vcpus (pos 1);
  work_root = or_text cfg.work_root temp_dir;
  boot_timeout = or_default cfg.boot_timeout (pos 30000000000);
  stop_timeout = or_default cfg.stop_timeout (pos 5000000000);
  kernel_boot_args = or_text cfg.kernel_boot_args boot_args_default;
}

abbrev missing_fields : FirecrackerConfig → List Text
missing_fields cfg =
    let rest = if is_empty cfg.rootfs_path then text "RootfsPath" ∷ [] else [] in
    if is_empty cfg.kernel_path then text "KernelPath" ∷ rest else rest

-- validateConfig.
unfoldable pub validate_config : FirecrackerConfig → Option Error
validate_config cfg =
    let missing = missing_fields cfg in
    if is_empty missing
    then none
    else some (
        plain (
          text "emberbox/sandbox: FirecrackerConfig missing required field(s): "
          ++ join missing (text ", ")))
