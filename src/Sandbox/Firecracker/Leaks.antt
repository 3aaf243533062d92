-- ===== src/Sandbox/Firecracker/Leaks.antt =====
-- sandbox/firecracker.go: what Boot leaves on the host, a directory and a process, on every path.
use native.Mathlib.Decide.{ℕ_discrete}
use mathlib.Core.Option.{some-injective}
use emberbox.Prelude.{Text, ℕ, some, none, Option, ◌≡◌, ◌≢◌, refl, ap, ◌∙◌, ◌⊎◌, inl, inr, []}
use emberbox.Prelude.Dict
use emberbox.Prelude.Dict.{Dict}
use emberbox.Errors.{Result, ok, err, Error, Result-cases}
use emberbox.Context.{Context}
use emberbox.Sandbox.{AllocRequest}
use emberbox.Sandbox.Handles.{AnyHandle, of_firecracker, FirecrackerHandle}
use emberbox.Sandbox.Firecracker.{FirecrackerConfig, validate_config}
use emberbox.Sandbox.Firecracker.Machine.{Vms, Launch, destroy_handle}
use emberbox.Sandbox.Firecracker.Boot.{
  Host, boot, after_drive, after_launch, after_create, handle_in, named_dir, drive_boot,
}
use emberbox.Sandbox.Firecracker.Laws.{Stops, destroy_handle-IsGone, EndsRemoved, boot-EndsRemoved}
use emberbox.Sandbox.Firecracker.Keeping.{IsKept}
use emberbox.Sandbox.Firecracker.Keeping.Lifecycle.{drive_boot_keeps, destroy_handle_keeps}

-- What is relied on of the processes, where `IsGone pid w` says that no process with the number
-- `pid` runs: of all calls only launchVMM starts one, and only if it returns it.
pub record Spawns {W : Type 0} (host : Host W) (launch : Launch W) : Type 1 where
  pub stops : Stops host.machine
  pub kept : (pid : ℕ) → IsKept host (stops.IsGone pid)
  pub launch_fails :
      (ctx : Context) (api_path dir : Text) (log_file pid : ℕ) (w : W) (e : Error)
      → (launch ctx api_path dir log_file w).0 ≡ err e
      → stops.IsGone pid w
      → stops.IsGone pid (launch ctx api_path dir log_file w).1
  pub launch_other :
      (ctx : Context) (api_path dir : Text) (log_file pid : ℕ) (w : W) (o : Option ℕ)
      → (launch ctx api_path dir log_file w).0 ≡ ok o
      → o ≢ some pid
      → stops.IsGone pid w
      → stops.IsGone pid (launch ctx api_path dir log_file w).1

module _ {W : Type 0} (host : Host W) (cfg : FirecrackerConfig) (launch : Launch W)
    (laws : Spawns host launch) (pid : ℕ) where
  abbrev Gone : W → Type 0
  Gone = laws.stops.IsGone pid

  -- A failed Boot leaves no process under the number `pid`, and one that succeeds leaves none but
  -- that of its handle, which has the working directory.
  abbrev pub BootLeaves : Text → Result AnyHandle × Vms W → Type 0
  BootLeaves dir o =
      ((e : Error) × (o.0 ≡ err e) × Gone o.1.host)
      ⊎ ((h : FirecrackerHandle) × (o.0 ≡ ok (of_firecracker h))
          × (h.work_dir ≡ dir)
          × ((h.pid ≡ some pid) ⊎ Gone o.1.host))

  -- The number is that of the handle, or no process has it.
  abbrev IsOwn : FirecrackerHandle → W → Type 0
  IsOwn h w = (h.pid ≡ some pid) ⊎ Gone w

  driven-IsOwn :
      (ctx : Context) (h : FirecrackerHandle) (w : W)
      → IsOwn h w
      → IsOwn h (drive_boot host cfg ctx h w).1
  driven-IsOwn ctx h w (inl own) = inl own
  driven-IsOwn ctx h w (inr gone) =
      inr (drive_boot_keeps host cfg Gone (laws.kept pid) ctx h w gone)

  destroyed-Gone :
      (h : FirecrackerHandle) (v : Vms W)
      → Dict.lookup h.id v.stops ≡ none
      → IsOwn h v.host
      → Gone (destroy_handle host.machine cfg h v).1.host
  destroyed-Gone h v new (inl own) =
      (destroy_handle-IsGone host.machine cfg laws.stops h v pid own new).1
  destroyed-Gone h v new (inr gone) = destroy_handle_keeps host cfg Gone (laws.kept pid) h v gone

  is_pid : (o : Option ℕ) → (o ≡ some pid) ⊎ (o ≢ some pid)
  is_pid none = inr (λ e. cc)
  is_pid (some p) = elim (ℕ_discrete p pid) [
    | yes e ↦ inl (ap some e)
    | no other ↦ inr (λ e. other (some-injective p pid e))
  ]

  module _ (ctx : Context) (i dir : Text) (req : AllocRequest) (stops : Dict (Option Error))
      (new : Dict.lookup i stops ≡ none) where
    after_drive-BootLeaves :
        (h : FirecrackerHandle) (r : Option Error × W)
        → h.id ≡ i
        → h.work_dir ≡ dir
        → IsOwn h r.1
        → BootLeaves dir (after_drive host cfg h stops r)
    after_drive-BootLeaves h (none, w) at_i at_dir own = inr (h, refl, at_dir, own)
    after_drive-BootLeaves h (some e, w) at_i at_dir own =
        inl (e, refl, destroyed-Gone h (record { host = w; stops = stops }) (rw at_i new) own)

    after_launch-BootLeaves :
        (log_file : ℕ) (r : Result (Option ℕ) × W)
        → (Gone r.1 ⊎ (r.0 ≡ ok (some pid)))
        → BootLeaves dir (after_launch host cfg launch ctx i dir req log_file stops r)
    after_launch-BootLeaves log_file (err e, w) (inl gone) =
        inl (_, refl, (laws.kept pid).remove_all dir _ ((laws.kept pid).close_file log_file w gone))
    after_launch-BootLeaves log_file (err e, w) (inr own) = absurd cc
    after_launch-BootLeaves log_file (ok o, w) (inl gone) =
        after_drive-BootLeaves (handle_in host cfg i dir req log_file o) _ refl refl
          (driven-IsOwn _ (handle_in host cfg i dir req log_file o) w (inr gone))
    after_launch-BootLeaves log_file (ok o, w) (inr own) =
        after_drive-BootLeaves (handle_in host cfg i dir req log_file o) _ refl refl
          (driven-IsOwn _ (handle_in host cfg i dir req log_file o) w (inl cc))

    launched :
        (api_path : Text) (log_file : ℕ) (w : W)
        → Gone w
        → let r = launch ctx api_path dir log_file w in Gone r.1 ⊎ (r.0 ≡ ok (some pid))
    launched api_path log_file w gone = elim (Result-cases (launch ctx api_path dir log_file w).0) [
      | inl (o, e) ↦ elim (is_pid o) [
        | inl own ↦ inr (e ∙ ap ok own)
        | inr other ↦ inl (laws.launch_other ctx api_path dir log_file pid w o e other gone)
      ]
      | inr (x, e) ↦ inl (laws.launch_fails ctx api_path dir log_file pid w x e gone)
    ]

    after_create-BootLeaves :
        (r : Result ℕ × W)
        → Gone r.1
        → BootLeaves dir (after_create host cfg launch ctx i dir req stops r)
    after_create-BootLeaves (err e, w) gone = inl (_, refl, (laws.kept pid).remove_all dir w gone)
    after_create-BootLeaves (ok log_file, w) gone =
        after_launch-BootLeaves log_file _ (launched _ log_file w gone)

  booted :
      (ctx : Context) (req : AllocRequest) (v : Vms W) (dir : Text)
      → validate_config cfg ≡ none
      → (named_dir host cfg launch v.host).1 ≡ ok dir
      → Dict.lookup (named_dir host cfg launch v.host).0 v.stops ≡ none
      → Gone v.host
      → BootLeaves dir (boot host cfg launch ctx req v)
  unfolding boot
  booted ctx req v dir valid made new gone =
      rw (valid, made)
        (after_create-BootLeaves ctx (named_dir host cfg launch v.host).0 dir req v.stops new _ (
          (laws.kept pid).create _ _
            ((laws.kept pid).mkdir_temp _ _ _ ((laws.kept pid).new_uuid _ gone))))

  -- A Boot that has made its working directory, under an identity that is new, either fails, ends by
  -- removing the directory and leaves no process under a number that no process had before; or it
  -- returns a handle with this directory, and has started no process but that of the handle. The
  -- directory has a name.
  pub boot-BootLeaves :
      (ctx : Context) (req : AllocRequest) (v : Vms W) (dir : Text)
      → validate_config cfg ≡ none
      → (named_dir host cfg launch v.host).1 ≡ ok dir
      → dir ≢ []
      → Dict.lookup (named_dir host cfg launch v.host).0 v.stops ≡ none
      → laws.stops.IsGone pid v.host
      → let o = boot host cfg launch ctx req v in
        ((e : Error) × (o.0 ≡ err e) × EndsRemoved host cfg dir o.1 × Gone o.1.host)
        ⊎ ((h : FirecrackerHandle) × (o.0 ≡ ok (of_firecracker h))
            × (h.work_dir ≡ dir)
            × ((h.pid ≡ some pid) ⊎ Gone o.1.host))
  boot-BootLeaves ctx req v dir valid made named new gone =
      elim (booted ctx req v dir valid made new gone) [
        | inl (e, failed, left) ↦ inl (
          e,
          failed,
          boot-EndsRemoved host cfg launch ctx req v dir e valid made named new failed,
          left,
        )
        | inr booted ↦ inr booted
      ]
