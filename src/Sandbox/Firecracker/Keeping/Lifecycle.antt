-- ===== src/Sandbox/Firecracker/Keeping/Lifecycle.antt =====
-- sandbox/firecracker.go: Boot, Exec and Destroy keep what the calls on the host keep.
use emberbox.Prelude.Dict.{Dict}
use emberbox.Sandbox.AgentClient.Probe.{vsock_probe, wait_for_vsock_agent, vsock_probe}
use emberbox.Prelude.{
  Text, ℕ, Option, none, some, inl, inr, Option-cases, List-cases, Bool, true, false,
}
use emberbox.Prelude.Dict
use emberbox.Errors.{Result, ok, err, Error}
use emberbox.Context.{Context}
use emberbox.Sandbox.{AllocRequest}
use emberbox.Sandbox.Handles.{
  of_firecracker, of_host, foreign, assert_firecracker, AnyHandle, FirecrackerHandle,
}
use emberbox.Sandbox.FirecrackerApi.{wait_for_socket, wait_for_socket}
use emberbox.Sandbox.Firecracker.{validate_config, FirecrackerConfig}
use emberbox.Sandbox.Firecracker.Machine.{
  kill_after, stop_process, clean_up, terminate, Vms, Launch, destroy_handle,
}
use emberbox.Sandbox.Firecracker.Boot.{
  wait_for_api, wait_for_agent, drive_boot, after_drive, after_launch, after_create, after_mkdir,
  handle_in, boot, exec, destroy, Host,
}
use emberbox.Sandbox.Firecracker.Keeping.{IsKept, poll_until_keeps, attempt_keeps}
use emberbox.Sandbox.Firecracker.Keeping.Calls.{put_json_keeps, vsock_probe_keeps, dial_agent_keeps}

module _ {W : Type 0} (host : Host W) (cfg : FirecrackerConfig) (P : W → Type 0)
    (K : IsKept host P) where
  wait_for_api_keeps :
      (ctx : Context) (h : FirecrackerHandle) (w : W) → P w → P (wait_for_api host cfg ctx h w).1
  unfolding wait_for_api wait_for_socket
  wait_for_api_keeps ctx h w p =
      poll_until_keeps P (host.http.connect ctx h.api_path) _ (K.connect ctx h.api_path) _ _ w p

  wait_for_agent_keeps :
      (ctx : Context) (h : FirecrackerHandle) (w : W) → P w → P (wait_for_agent host cfg ctx h w).1
  unfolding wait_for_agent wait_for_vsock_agent
  wait_for_agent_keeps ctx h w p =
      poll_until_keeps P
        (vsock_probe host.transport host.quote host.now ctx h.uds_path cfg.agent_port) _
        (vsock_probe_keeps host P K ctx h.uds_path cfg.agent_port) _ _ w p

  pub drive_boot_keeps :
      (ctx : Context) (h : FirecrackerHandle) (w : W) → P w → P (drive_boot host cfg ctx h w).1
  unfolding drive_boot
  drive_boot_keeps ctx h =
      let put = put_json_keeps host P K ctx h.api_path in
      attempt_keeps P _ _ _ (wait_for_api_keeps ctx h) (
        attempt_keeps P _ _ _ (put _ _) (
          attempt_keeps P _ _ _ (put _ _) (
            attempt_keeps P _ _ _ (put _ _) (
              attempt_keeps P _ _ _ (put _ _) (
                attempt_keeps P _ _ _ (put _ _)
                  (attempt_keeps P _ _ _ (wait_for_agent_keeps ctx h) (λ w p. p)))))))

  kill_after_keeps : (pid : ℕ) (r : Bool × W) → P r.1 → P (kill_after host.machine cfg pid r)
  kill_after_keeps pid (true, w) p = p
  kill_after_keeps pid (false, w) p = K.wait pid _ (K.kill_group pid 9 w p)

  stop_process_keeps : (pid : Option ℕ) (w : W) → P w → P (stop_process host.machine cfg pid w)
  stop_process_keeps none w p = p
  stop_process_keeps (some pid) w p =
      kill_after_keeps pid _ (K.exits pid cfg.stop_timeout _ (K.kill_group pid 15 w p))

  clean_up_keeps : (h : FirecrackerHandle) (w : W) → P w → P (clean_up host.machine cfg h w)
  clean_up_keeps h w p = elim (List-cases h.work_dir) [
    | inl e ↦ rw e (K.close_file h.log_file w p)
    | inr (c, cs, e) ↦ rw e (K.remove_all _ _ (K.close_file h.log_file w p))
  ]

  pub destroy_handle_keeps :
      (h : FirecrackerHandle) (v : Vms W)
      → P v.host
      → P (destroy_handle host.machine cfg h v).1.host
  unfolding destroy_handle terminate
  destroy_handle_keeps h v p = elim (Option-cases (Dict.lookup h.id v.stops)) [
    | inl e ↦ rw (destroy_handle, e) (clean_up_keeps h _ (stop_process_keeps h.pid v.host p))
    | inr (x, e) ↦ rw (destroy_handle, e) p
  ]

  pub destroy_keeps :
      (ctx : Context) (h : AnyHandle) (v : Vms W) → P v.host → P (destroy host cfg ctx h v).1.host
  unfolding destroy assert_firecracker
  destroy_keeps ctx (of_firecracker h) v p = destroy_handle_keeps h v p
  destroy_keeps ctx (of_host h) v p = p
  destroy_keeps ctx (foreign i kind) v p = p

  pub exec_keeps :
      (ctx : Context) (h : AnyHandle) (tool input : Text) (v : Vms W)
      → P v.host
      → P (exec host cfg ctx h tool input v).1.host
  unfolding exec assert_firecracker
  exec_keeps ctx (of_firecracker h) tool input v p =
      dial_agent_keeps host P K ctx tool input _ h.uds_path cfg.agent_port v.host p
  exec_keeps ctx (of_host h) tool input v p = p
  exec_keeps ctx (foreign i kind) tool input v p = p

  module _ (launch : Launch W)
      (launched : (ctx : Context) (api_path dir : Text) (log_file : ℕ) (w : W)
        → P w
        → P (launch ctx api_path dir log_file w).1)
      (ctx : Context) (i : Text) (req : AllocRequest) (stops : Dict (Option Error)) where
    after_drive_keeps :
        (h : FirecrackerHandle) (r : Option Error × W)
        → P r.1
        → P (after_drive host cfg h stops r).1.host
    after_drive_keeps h (none, w) p = p
    after_drive_keeps h (some e, w) p =
        destroy_handle_keeps h (record { host = w; stops = stops }) p

    after_launch_keeps :
        (dir : Text) (log_file : ℕ) (r : Result (Option ℕ) × W)
        → P r.1
        → P (after_launch host cfg launch ctx i dir req log_file stops r).1.host
    after_launch_keeps dir log_file (err e, w) p = K.remove_all dir _ (K.close_file log_file w p)
    after_launch_keeps dir log_file (ok pid, w) p =
        after_drive_keeps (handle_in host cfg i dir req log_file pid) _ (drive_boot_keeps _ _ w p)

    after_create_keeps :
        (dir : Text) (r : Result ℕ × W)
        → P r.1
        → P (after_create host cfg launch ctx i dir req stops r).1.host
    after_create_keeps dir (err e, w) p = K.remove_all dir w p
    after_create_keeps dir (ok log_file, w) p =
        after_launch_keeps dir log_file _ (launched ctx _ dir log_file w p)

    pub after_mkdir_keeps :
        (r : Result Text × W) → P r.1 → P (after_mkdir host cfg launch ctx i req stops r).1.host
    after_mkdir_keeps (err e, w) p = p
    after_mkdir_keeps (ok dir, w) p = after_create_keeps dir _ (K.create _ w p)

  pub boot_keeps :
      (launch : Launch W)
      → ((ctx : Context) (api_path dir : Text) (log_file : ℕ) (w : W)
          → P w
          → P (launch ctx api_path dir log_file w).1)
      → (ctx : Context) (req : AllocRequest) (v : Vms W) → P v.host
      → P (boot host cfg launch ctx req v).1.host
  unfolding boot
  boot_keeps launch launched ctx req v p = elim (Option-cases (validate_config cfg)) [
    | inl e ↦ rw e (
        after_mkdir_keeps launch launched ctx _ req v.stops _
          (K.mkdir_temp cfg.work_root _ _ (K.new_uuid v.host p)))
    | inr (x, e) ↦ rw e p
  ]
