-- ===== src/Sandbox/Firecracker/Machine.antt =====
-- sandbox/firecracker.go: starting and stopping the process of one microVM. The world `W` holds the
-- processes and the files; the Once of each handle is in `stops`, which holds the `stopErr` of a
-- handle once its stop has run, under the identity of the handle.
use emberbox.Prelude.{Text, text, ℕ, Bool, true, false, Option, none, some, List, [], ◌∷◌}
use emberbox.Prelude.Int.{ℤ}
use emberbox.Prelude.Dict
use emberbox.Prelude.Dict.{Dict}
use emberbox.Errors.{Result, ok, err, Error}
use emberbox.Context.{Context}
use emberbox.Sandbox.Handles.{FirecrackerHandle}
use emberbox.Sandbox.Firecracker.{FirecrackerConfig}

-- os, os/exec and syscall. `exits pid d` waits until the process has exited, and reports whether it
-- did within `d`; `wait` waits without a limit. `start` starts a process with both its outputs in a
-- log file, in a process group of its own.
pub record Machine (W : Type 0) : Type 0 where
  pub mkdir_temp : Text → Text → W → Result Text × W
  pub remove_all : Text → W → Option Error × W
  pub create : Text → W → Result ℕ × W
  pub close_file : ℕ → W → W
  pub start : Text → List Text → ℕ → W → Result ℕ × W
  pub kill_group : ℕ → ℕ → W → Option Error × W
  pub exits : ℕ → ℤ → W → Bool × W
  pub wait : ℕ → W → W
  pub new_uuid : W → Text × W

pub record Vms (W : Type 0) : Type 0 where
  pub host : W
  pub stops : Dict (Option Error)

-- The type of launchVMM; a command without a process has no identity.
abbrev pub Launch : Type 0 → Type 0
Launch W = Context → Text → Text → ℕ → W → Result (Option ℕ) × W

module _ {W : Type 0} (m : Machine W) (cfg : FirecrackerConfig) where
  abbrev started : Result ℕ × W → Result (Option ℕ) × W
  started (ok pid, w) = (ok (some pid), w)
  started (err e, w) = (err e, w)

  unfoldable pub real_launch_vmm : Launch W
  real_launch_vmm ctx api_path work_dir log_file w =
      started (m.start cfg.firecracker_binary (text "--api-sock" ∷ api_path ∷ []) log_file w)

  -- The deferred part of terminate; the error of RemoveAll is only logged.
  abbrev pub clean_up : FirecrackerHandle → W → W
  clean_up h w =
      let w' = m.close_file h.log_file w in
      elim h.work_dir [ [] ↦ w' | c ∷ cs ↦ (m.remove_all h.work_dir w').1 ]

  abbrev pub kill_after : ℕ → Bool × W → W
  kill_after pid (true, w) = w
  kill_after pid (false, w) = m.wait pid (m.kill_group pid 9 w).1

  abbrev pub stop_process : Option ℕ → W → W
  stop_process none w = w
  stop_process (some pid) w =
      kill_after pid (m.exits pid cfg.stop_timeout (m.kill_group pid 15 w).1)

  unfoldable pub terminate : FirecrackerHandle → W → Option Error × W
  terminate h w = (none, clean_up h (stop_process h.pid w))

  abbrev pub once : FirecrackerHandle → Option (Option Error) → Vms W → Option Error × Vms W
  once h (some e) v = (e, v)
  once h none v =
      let (e, w) = terminate h v.host in
      (e, record { host = w; stops = Dict.insert h.id e v.stops })

  unfoldable pub destroy_handle : FirecrackerHandle → Vms W → Option Error × Vms W
  destroy_handle h v = once h (Dict.lookup h.id v.stops) v
