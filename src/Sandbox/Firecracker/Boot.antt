-- ===== src/Sandbox/Firecracker/Boot.antt =====
-- sandbox/firecracker.go: Boot, driveBoot, Exec and Destroy, and the backend they make.
use emberbox.Prelude.{not, true, Text, text, ℕ, ◌++◌, Option, none, some, take, itoa}
use emberbox.Prelude.Int.{ℤ, pos, ◌-ℤ◌}
use emberbox.Prelude.Dict.{Dict}
use emberbox.Errors.{Result, ok, err, Error, wrap}
use emberbox.Context.{Context, with_timeout}
use emberbox.Agent.Wire.{Json}
use emberbox.Sandbox.{Backend, AllocRequest, ExecResult}
use emberbox.Sandbox.Handles.{
  AnyHandle, FirecrackerHandle, of_firecracker, handle_id, assert_firecracker,
}
use emberbox.Sandbox.FirecrackerApi.{
  Http, set_machine_config, set_boot_source, set_drive, set_vsock, start_instance, wait_for_socket,
}
use emberbox.Sandbox.AgentClient.{Transport, dial_agent_vsock_uds}
use emberbox.Sandbox.AgentClient.Probe.{wait_for_vsock_agent}
use emberbox.Sandbox.Firecracker.{FirecrackerConfig, validate_config}
use emberbox.Sandbox.Pool.Sections.{or_default}
use emberbox.Sandbox.Firecracker.Machine.{Machine, Vms, Launch, real_launch_vmm, destroy_handle}

-- All that the backend uses of the host. `ends ctx w` says at which wait of a polling loop the
-- context ends, counted from 0, and with which error; `join_path` is filepath.Join, `quote` is %q.
pub record Host (W : Type 0) : Type 1 where
  pub machine : Machine W
  pub http : Http W
  pub transport : Transport W
  pub json : Json
  pub now : W → ℤ
  pub ends : Context → W → ℕ × Error
  pub join_path : Text → Text → Text
  pub quote : Text → Text

-- if err := step; err != nil { return fmt.Errorf("<label>%w", err) }
unfoldable pub attempt :
    {W : Type 0} → Text → (W → Option Error × W) → (W → Option Error × W) → W → Option Error × W
attempt label step next w =
    let (r, w') = step w in
    let rest = next w' in elim r [ some e ↦ (some (wrap label e), w') | none ↦ rest ]

module _ {W : Type 0} (host : Host W) (cfg : FirecrackerConfig) where
  unfoldable pub wait_for_api : Context → FirecrackerHandle → W → Option Error × W
  wait_for_api ctx h w =
      let (n, cause) = host.ends ctx w in wait_for_socket host.http ctx h.api_path n cause w

  unfoldable pub wait_for_agent : Context → FirecrackerHandle → W → Option Error × W
  wait_for_agent ctx h w =
      let (n, cause) = host.ends ctx w in
      wait_for_vsock_agent host.transport host.quote host.now ctx h.uds_path cfg.agent_port n cause
        w

  unfoldable pub drive_boot : Context → FirecrackerHandle → W → Option Error × W
  drive_boot ctx h = attempt (text "firecracker API socket: ") (wait_for_api ctx h) (
      attempt (text "set machine-config: ")
        (set_machine_config host.http ctx h.api_path
          (record { vcpu_count = h.vcpus; mem_size_mib = h.memory_mb }))
        (attempt (text "set boot-source: ")
          (set_boot_source host.http ctx h.api_path
            (record { kernel_image_path = cfg.kernel_path; boot_args = cfg.kernel_boot_args }))
          (attempt (text "set drive rootfs: ")
            (set_drive host.http ctx h.api_path (record {
              drive_id = text "rootfs";
              path_on_host = cfg.rootfs_path;
              is_root_device = true;
              is_read_only = not cfg.rootfs_read_write;
            }))
            (attempt (text "set vsock: ")
              (set_vsock host.http ctx h.api_path
                (record { guest_cid = cfg.guest_cid; uds_path = h.uds_path }))
              (attempt (text "start instance: ") (start_instance host.http ctx h.api_path) (
                attempt
                  (text "in-VM agent never came up on vsock port "
                    ++ (itoa cfg.agent_port ++ text ": "))
                  (wait_for_agent ctx h) (λ w. (none, w))))))))

  abbrev pub after_drive :
      FirecrackerHandle → Dict (Option Error) → Option Error × W → Result AnyHandle × Vms W
  after_drive h stops (none, w) = (ok (of_firecracker h), record { host = w; stops = stops })
  after_drive h stops (some e, w) =
      (err e, (destroy_handle host.machine cfg h (record { host = w; stops = stops })).1)

  -- The handle of a VM whose process has been launched.
  abbrev pub handle_in : Text → Text → AllocRequest → ℕ → Option ℕ → FirecrackerHandle
  handle_in i dir req log_file pid = record {
    id = i;
    work_dir = dir;
    uds_path = host.join_path dir (text "vsock.sock");
    api_path = host.join_path dir (text "firecracker.sock");
    pid = pid;
    log_file = log_file;
    memory_mb = or_default req.memory_mb cfg.default_memory_mb;
    vcpus = or_default req.vcpus cfg.default_vcpus;
    env = req.env;
  }

  module _ (launch : Launch W) where
    abbrev pub after_launch :
        Context
        → Text
        → Text
        → AllocRequest
        → ℕ
        → Dict (Option Error)
        → Result (Option ℕ) × W
        → Result AnyHandle × Vms W
    after_launch ctx i dir req log_file stops (err e, w) =
        let w' = (host.machine.remove_all dir (host.machine.close_file log_file w)).1 in
        (err (wrap (text "start firecracker: ") e), record { host = w'; stops = stops })
    after_launch ctx i dir req log_file stops (ok pid, w) =
        let h = handle_in i dir req log_file pid in
        after_drive h stops (drive_boot (with_timeout ctx (host.now w) cfg.boot_timeout) h w)

    abbrev pub after_create :
        Context
        → Text
        → Text
        → AllocRequest
        → Dict (Option Error)
        → Result ℕ × W
        → Result AnyHandle × Vms W
    after_create ctx i dir req stops (err e, w) = (
      err (wrap (text "create log file: ") e),
      record { host = (host.machine.remove_all dir w).1; stops = stops },
    )
    after_create ctx i dir req stops (ok log_file, w) =
        after_launch ctx i dir req log_file stops
          (launch ctx (host.join_path dir (text "firecracker.sock")) dir log_file w)

    abbrev pub after_mkdir :
        Context
        → Text
        → AllocRequest
        → Dict (Option Error)
        → Result Text × W
        → Result AnyHandle × Vms W
    after_mkdir ctx i req stops (err e, w) =
        (err (wrap (text "create work dir: ") e), record { host = w; stops = stops })
    after_mkdir ctx i req stops (ok dir, w) =
        after_create ctx i dir req stops
          (host.machine.create (host.join_path dir (text "firecracker.log")) w)

    -- uuid.New().String()[:12], and the directory for it.
    abbrev pub named_dir : W → Text × Result Text × W
    named_dir w =
        let (u, w') = host.machine.new_uuid w in
        let i = take 12 u in
        let (dir, w'') =
          host.machine.mkdir_temp cfg.work_root (text "emberbox-fc-" ++ (i ++ text "-")) w' in
        (i, dir, w'')

    abbrev pub after_validate :
        Context → AllocRequest → Option Error → Vms W → Result AnyHandle × Vms W
    after_validate ctx req (some e) v = (err e, v)
    after_validate ctx req none v =
        let (i, dir, w) = named_dir v.host in after_mkdir ctx i req v.stops (dir, w)

    unfoldable pub boot : Context → AllocRequest → Vms W → Result AnyHandle × Vms W
    boot ctx req v = after_validate ctx req (validate_config cfg) v

  abbrev pub time_left : Option ℤ → W → ℤ
  time_left none w = pos 0
  time_left (some d) w = d -ℤ host.now w

  abbrev pub exec_on :
      Context → Result FirecrackerHandle → Text → Text → Vms W → Result ExecResult × Vms W
  exec_on ctx (err e) tool input v = (err e, v)
  exec_on ctx (ok h) tool input v =
      let (r, w) =
        dial_agent_vsock_uds host.transport host.json host.quote ctx h.uds_path cfg.agent_port tool
          input (time_left ctx.deadline v.host) v.host in
      (r, record v { host = w })

  unfoldable pub exec : Context → AnyHandle → Text → Text → Vms W → Result ExecResult × Vms W
  exec ctx h = exec_on ctx (assert_firecracker h)

  abbrev pub destroy_on : Result FirecrackerHandle → Vms W → Option Error × Vms W
  destroy_on (err e) v = (some e, v)
  destroy_on (ok h) v = destroy_handle host.machine cfg h v

  unfoldable pub destroy : Context → AnyHandle → Vms W → Option Error × Vms W
  destroy ctx h = destroy_on (assert_firecracker h)

  -- `launch` is launchVMM, if it is set.
  abbrev pub firecracker_backend : Option (Launch W) → Backend
  firecracker_backend launch = record {
    Handle = AnyHandle;
    World = Vms W;
    name = text "firecracker";
    id = handle_id;
    boot = boot (elim launch [ none ↦ real_launch_vmm host.machine cfg | some l ↦ l ]);
    exec = exec;
    destroy = destroy;
  }
