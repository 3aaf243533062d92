-- ===== src/Examples/Fake.antt =====
-- sandbox/sandboxtest/fake.go: NewFake. A failed New ends the test, and the cleanup is the test's.
use emberbox.Sandbox.Pool.Methods.{start}
use emberbox.Prelude.{text_eq, Text, text, [], Option, none, some, ◌≡◌, refl}
use emberbox.Prelude.Int.{pos}
use emberbox.Tool.{Tools, new_registry}
use emberbox.Sandbox.{Backend}
use emberbox.Sandbox.Host.{HostWorld, host_backend, new_host_backend}
use emberbox.Sandbox.Pool.Sections.{PoolConfig, empty_pool}
use emberbox.Sandbox.New.{
  select_backend, Config, Choice, custom, host_choice, firecracker_choice, NewPool, made, new_pool,
  mode_host,
}

-- if r == nil { r = tool.NewRegistry() }
abbrev pub or_empty : {W : Type 0} → Option (Tools W) → Tools W
or_empty {W} none = new_registry W
or_empty (some r) = r

abbrev pub fake_pool_config : PoolConfig
fake_pool_config = record {
  pool_size = pos 0;
  default_memory_mb = pos 0;
  default_vcpus = pos 0;
  default_timeout = pos 5000000000;
}

abbrev pub fake_config : {W : Type 0} → Option (Tools W) → Config W
fake_config r = record {
  backend = none;
  mode = mode_host;
  kernel_path = [];
  rootfs_path = [];
  tools = some (or_empty r);
  pool = fake_pool_config;
}

module _ {W : Type 0} (getwd temp_dir : Text) (quote : Text → Text) (env : HostWorld W) (w : W)
    (other : Choice W → (B : Backend) × B.World) where
  -- The host backend is realized by the model of sandbox/host.go.
  abbrev pub realize : Choice W → (B : Backend) × B.World
  realize (host_choice b) = (host_backend env b, w)
  realize (custom B) = other (custom B)
  realize (firecracker_choice cfg) = other (firecracker_choice cfg)

  unfoldable pub new_fake : Option (Tools W) → NewPool
  new_fake r = new_pool getwd temp_dir quote realize (fake_config r)

  -- NewFake never ends the test: it returns an empty pool over a host backend with the tools that
  -- it was given, or with none, and it changes nothing in the world.
  new_fake_lem :
      (r : Option (Tools W))
      → let B = host_backend env (new_host_backend (or_empty r) getwd) in
        new_fake r ≡ made B (empty_pool B fake_pool_config) w
  unfolding new_fake new_pool select_backend mode_host text text_eq start
  new_fake_lem r = refl
