-- ===== src/Tests/FirecrackerTests.antt =====
-- The lifecycle of a microVM of sandbox/firecracker.go at concrete inputs.
use emberbox.Sandbox.Firecracker.Leaks.{Spawns, boot-BootLeaves}
use emberbox.Sandbox.Firecracker.Keeping.{IsKept}
use emberbox.Sandbox.Handles.{FirecrackerHandle, of_firecracker}
use emberbox.Errors.{Result, ok, err, Error}
use emberbox.Prelude.{
  Bool, Option, ◌≢◌, some, ◌⊎◌, has_prefix, text, ℕ, ◌≤◌, ◌++◌, ◌∷◌, [], take, none, true, false,
  ◌≡◌, refl,
}
use emberbox.Prelude.Dict
use emberbox.Sandbox.FirecrackerApi.{wait_for_socket}
use emberbox.Sandbox.Polling.{poll_until}
use emberbox.Sandbox.AgentClient.{accepts}
use emberbox.Sandbox.AgentClient.Probe.{wait_for_vsock_agent, vsock_probe}
use emberbox.Context.{background}
use emberbox.Sandbox.Firecracker.{validate_config}
use emberbox.Sandbox.Firecracker.Machine.{Vms, destroy_handle}
use emberbox.Sandbox.Firecracker.Boot.{wait_for_agent, wait_for_api, Host, boot, drive_boot}
use emberbox.Sandbox.Firecracker.Laws.{destroy_handle_lem, EndsRemoved}
use emberbox.Sandbox.Firecracker.Order.{Logs, boot_order, drive_boot-Sends}
use emberbox.Tests.Counting.{plain_request}
use emberbox.Tests.ToyMachine.{
  Box, toy_machine, toy_machine-Stops, toy_box, toy_config, toy_launch, toy_vm,
}

abbrev running_box : Vms Box
running_box = record { host = record { running = true; sent = [] }; stops = [] }

destroy_handle_lem_example :
    let (e, v') = destroy_handle toy_machine toy_config toy_vm running_box in
    (e ≡ none)
    × (v'.host.running ≡ false)
    × (destroy_handle toy_machine toy_config toy_vm v' ≡ (e, v'))
unfolding Dict.lookup
destroy_handle_lem_example =
    destroy_handle_lem toy_machine toy_config toy_machine-Stops toy_vm running_box 42 refl refl

-- A microVM whose agent refuses every connection.
abbrev refuses : Host Box
refuses = toy_box (b'N' ∷ b'O' ∷ b'\n' ∷ [])

-- Only the number 42 is ever that of a process.
abbrev OnlyVm : ℕ → Box → Type 0
OnlyVm pid w = pid ≡ 42 → w.running ≡ false

free_exits : (pid : ℕ) (w : Box) → ◌≡◌ {A = Bool} false true → OnlyVm pid w
free_exits pid w e = absurd cc

free_fails :
    (pid : ℕ) (w : Box) (e : Error)
    → ◌≡◌ {A = Result (Option ℕ)} (ok (some 42)) (err e)
    → OnlyVm pid (record w { running = true })
free_fails pid w e failed = absurd cc

free_other :
    (pid : ℕ) (w : Box) (o : Option ℕ)
    → ◌≡◌ {A = Result (Option ℕ)} (ok (some 42)) (ok o)
    → o ≢ some pid
    → OnlyVm pid (record w { running = true })
free_other pid w o launched other same = absurd (other cc)

refuses-IsKept : (pid : ℕ) → IsKept refuses (OnlyVm pid)
refuses-IsKept pid = record {
  mkdir_temp = λ root pattern w p. p;
  remove_all = λ d w p. p;
  create = λ f w p. p;
  close_file = λ f w p. p;
  kill_group = λ q signal w p. p;
  exits = λ q d w p. p;
  wait = λ q w p e. refl;
  new_uuid = λ w p. p;
  put = λ ctx socket path body w p. p;
  connect = λ ctx socket w p. p;
  dial = λ ctx timeout path w p. p;
  set_deadline = λ c d w p. p;
  send = λ c bytes w p. p;
  read_line = λ c w p. p;
  receive = λ c w p. p;
  close = λ c w p. p;
}

abbrev refuses-Spawns : Spawns refuses toy_launch
refuses-Spawns = record {
  stops = record {
    IsGone = OnlyVm;
    exits_gone = λ pid d w e. free_exits pid w e;
    wait_gone = λ pid w e. refl;
    close_keeps = λ f pid w gone. gone;
    remove_keeps = λ d pid w gone. gone;
  };
  kept = refuses-IsKept;
  launch_fails = λ ctx api dir log_file pid w e failed gone. free_fails pid w e failed;
  launch_other =
      λ ctx api dir log_file pid w o launched other gone. free_other pid w o launched other;
}

abbrev stopped_box : Vms Box
stopped_box = record { host = record { running = false; sent = [] }; stops = [] }

boot-BootLeaves_example :
    let o = boot refuses toy_config toy_launch background plain_request stopped_box in
    ((e : Error) × (o.0 ≡ err e)
      × EndsRemoved refuses toy_config (b'd' ∷ []) o.1
      × OnlyVm 42 o.1.host)
    ⊎ ((h : FirecrackerHandle) × (o.0 ≡ ok (of_firecracker h))
        × (h.work_dir ≡ b'd' ∷ [])
        × ((h.pid ≡ some 42) ⊎ OnlyVm 42 o.1.host))
unfolding validate_config Dict.lookup
boot-BootLeaves_example =
    boot-BootLeaves refuses toy_config toy_launch refuses-Spawns 42 background plain_request
      stopped_box (b'd' ∷ []) refl refl (λ h. cc) refl (λ e. refl)

refuses-Logs : Logs refuses toy_config
unfolding wait_for_api wait_for_socket poll_until wait_for_agent wait_for_vsock_agent vsock_probe
    accepts has_prefix text
refuses-Logs = record {
  log = λ w. w.sent;
  put_logs = λ ctx socket path body w. refl;
  api_keeps = λ ctx h w. refl;
  agent_keeps = λ ctx h w. refl;
}

abbrev started_box : Box
started_box = record { running = true; sent = [] }

drive_boot-Sends_example :
    let (r, w) = drive_boot refuses toy_config background toy_vm started_box in
    (k : ℕ) × (w.sent ≡ [] ++ take k boot_order)
    × (((r ≡ none) × (5 ≤ k)) ⊎ ((e : Error) × (r ≡ some e)))
unfolding drive_boot refuses-Logs
drive_boot-Sends_example =
    drive_boot-Sends refuses toy_config refuses-Logs background toy_vm started_box
