-- ===== src/Sandbox/Firecracker/Identities.antt =====
-- sandbox/firecracker.go: its backend meets the contract on identities as long as the first 12
-- characters of the UUIDs do not repeat.
use mathlib.Core.Path.{subst}
use emberbox.Prelude.{
  Text, take, some, none, Option, ◌≡◌, refl, sym, ap, ◌∙◌, ◌⊎◌, Option-cases, inl, inr, ℕ,
}
use emberbox.Prelude.Dict
use emberbox.Prelude.Dict.{Dict}
use emberbox.Errors.{Result, ok, err, Error}
use emberbox.Context.{Context}
use emberbox.Sandbox.{IssuesFreshIds, AllocRequest}
use emberbox.Sandbox.Handles.{AnyHandle, of_firecracker, handle_id, FirecrackerHandle}
use emberbox.Sandbox.Firecracker.{FirecrackerConfig, validate_config}
use emberbox.Sandbox.Firecracker.Machine.{Vms, Launch, destroy_handle}
use emberbox.Sandbox.Firecracker.Boot.{
  Host, boot, after_drive, after_launch, after_create, after_mkdir, handle_in, firecracker_backend,
}
use emberbox.Sandbox.Firecracker.Keeping.{IsKept}
use emberbox.Sandbox.Firecracker.Keeping.Lifecycle.{
  after_mkdir_keeps, boot_keeps, exec_keeps, destroy_keeps,
}

-- launchVMM keeps a property of the host.
abbrev pub LaunchKeeps : {W : Type 0} → Launch W → (W → Type 0) → Type 0
LaunchKeeps {W} launch P =
    (ctx : Context) (api_path dir : Text) (log_file : ℕ) (w : W)
    → P w
    → P (launch ctx api_path dir log_file w).1

-- What is relied on: the prefix of a new UUID was not drawn before, and no call forgets one.
pub record FreshVms {W : Type 0} (host : Host W) (launch : Launch W) : Type 1 where
  pub Drawn : W → Text → Type 0
  pub new_fresh : (w : W) → ¬ Drawn w (take 12 (host.machine.new_uuid w).0)
  pub new_drawn : (w : W) → Drawn (host.machine.new_uuid w).1 (take 12 (host.machine.new_uuid w).0)
  pub kept : (i : Text) → IsKept host (λ w. Drawn w i)
  pub launch_kept : (i : Text) → LaunchKeeps launch (λ w. Drawn w i)

module _ {W : Type 0} (host : Host W) (cfg : FirecrackerConfig) (launch : Launch W) where
  -- The Onces that have run are as before, but for that of the identity `i`.
  abbrev pub Grows : Text → Dict (Option Error) → Dict (Option Error) → Type 0
  Grows i stops stops' = (stops' ≡ stops) ⊎ ((e : Option Error) × (stops' ≡ Dict.insert i e stops))

  -- A Boot that succeeds returns a handle with the identity `i` and runs no Once; one that fails
  -- runs that of `i` at most.
  abbrev pub BootOutcome : Text → Dict (Option Error) → Result AnyHandle × Vms W → Type 0
  BootOutcome i stops o =
      ((h : FirecrackerHandle) × (o.0 ≡ ok (of_firecracker h)) × (h.id ≡ i) × (o.1.stops ≡ stops))
      ⊎ ((e : Error) × (o.0 ≡ err e) × Grows i stops o.1.stops)

  pub destroy_handle-Grows :
      (h : FirecrackerHandle) (v : Vms W)
      → Grows h.id v.stops (destroy_handle host.machine cfg h v).1.stops
  unfolding destroy_handle
  destroy_handle-Grows h v = elim (Option-cases (Dict.lookup h.id v.stops)) [
    | inl e ↦ rw (destroy_handle, e) (inr (_, refl))
    | inr (x, e) ↦ rw (destroy_handle, e) (inl refl)
  ]

  module _ (ctx : Context) (i : Text) (req : AllocRequest) (stops : Dict (Option Error)) where
    after_drive-BootOutcome :
        (h : FirecrackerHandle) (r : Option Error × W)
        → h.id ≡ i
        → BootOutcome i stops (after_drive host cfg h stops r)
    after_drive-BootOutcome h (none, w) same = inl (h, refl, same, refl)
    after_drive-BootOutcome h (some e, w) same =
        inr (e, refl, rw (← same) (destroy_handle-Grows h (record { host = w; stops = stops })))

    after_launch-BootOutcome :
        (dir : Text) (log_file : ℕ) (r : Result (Option ℕ) × W)
        → BootOutcome i stops (after_launch host cfg launch ctx i dir req log_file stops r)
    after_launch-BootOutcome dir log_file (err e, w) = inr (_, refl, inl refl)
    after_launch-BootOutcome dir log_file (ok pid, w) =
        after_drive-BootOutcome (handle_in host cfg i dir req log_file pid) _ refl

    after_create-BootOutcome :
        (dir : Text) (r : Result ℕ × W)
        → BootOutcome i stops (after_create host cfg launch ctx i dir req stops r)
    after_create-BootOutcome dir (err e, w) = inr (_, refl, inl refl)
    after_create-BootOutcome dir (ok log_file, w) = after_launch-BootOutcome dir log_file _

    after_mkdir-BootOutcome :
        (r : Result Text × W) → BootOutcome i stops (after_mkdir host cfg launch ctx i req stops r)
    after_mkdir-BootOutcome (err e, w) = inr (_, refl, inl refl)
    after_mkdir-BootOutcome (ok dir, w) = after_create-BootOutcome dir _

  abbrev pub next_id : Vms W → Text
  next_id v = take 12 (host.machine.new_uuid v.host).0

  pub boot-BootOutcome :
      (ctx : Context) (req : AllocRequest) (v : Vms W)
      → BootOutcome (next_id v) v.stops (boot host cfg launch ctx req v)
  unfolding boot
  boot-BootOutcome ctx req v = elim (Option-cases (validate_config cfg)) [
    | inl e ↦ rw e (after_mkdir-BootOutcome ctx (next_id v) req v.stops _)
    | inr (x, e) ↦ rw e (inr (x, refl, inl refl))
  ]

  pub booted_id :
      (ctx : Context) (req : AllocRequest) (v : Vms W) (h : AnyHandle)
      → (boot host cfg launch ctx req v).0 ≡ ok h
      → (handle_id h ≡ next_id v) × ((boot host cfg launch ctx req v).1.stops ≡ v.stops)
  booted_id ctx req v h e = elim (boot-BootOutcome ctx req v) [
    | inl (g, made, same, kept) ↦
        let one : of_firecracker g ≡ h = cc in (sym (ap handle_id one) ∙ same, kept)
    | inr (x, failed, grows) ↦ absurd cc
  ]

  module _ (laws : FreshVms host launch) where
    pub valid_drawn :
        (ctx : Context) (req : AllocRequest) (v : Vms W)
        → validate_config cfg ≡ none
        → laws.Drawn (boot host cfg launch ctx req v).1.host (next_id v)
    unfolding boot
    valid_drawn ctx req v valid = rw valid (
        after_mkdir_keeps host cfg (λ w. laws.Drawn w (next_id v)) (laws.kept (next_id v)) launch
          (laws.launch_kept (next_id v)) ctx (next_id v) req v.stops _
          ((laws.kept (next_id v)).mkdir_temp cfg.work_root _ _ (laws.new_drawn v.host)))

    pub boot_drawn :
        (ctx : Context) (req : AllocRequest) (v : Vms W) (h : AnyHandle)
        → (boot host cfg launch ctx req v).0 ≡ ok h
        → laws.Drawn (boot host cfg launch ctx req v).1.host (next_id v)
    unfolding boot
    boot_drawn ctx req v h e = elim (Option-cases (validate_config cfg)) [
      | inl valid ↦ valid_drawn ctx req v valid
      | inr (x, invalid) ↦ let failed = rw (boot, invalid) at e in absurd cc
    ]

    pub boot_draws :
        (ctx : Context) (req : AllocRequest) (v : Vms W) (i : Text)
        → laws.Drawn v.host i
        → laws.Drawn (boot host cfg launch ctx req v).1.host i
    boot_draws ctx req v i =
        boot_keeps host cfg (λ w. laws.Drawn w i) (laws.kept i) launch (laws.launch_kept i) ctx req
          v

    abbrev pub vm_issues : IssuesFreshIds (firecracker_backend host cfg (some launch))
    vm_issues = record {
      Issued = λ v i. laws.Drawn v.host i;
      boot_fresh = λ ctx req v h e old.
          laws.new_fresh v.host (subst (laws.Drawn v.host) (booted_id ctx req v h e).0 old);
      boot_issues = λ ctx req v h e.
          subst (laws.Drawn (boot host cfg launch ctx req v).1.host)
            (sym (booted_id ctx req v h e).0) (boot_drawn ctx req v h e);
      boot_keeps = λ ctx req v i. boot_draws ctx req v i;
      exec_keeps = λ ctx h tool input v i.
          exec_keeps host cfg (λ w. laws.Drawn w i) (laws.kept i) ctx h tool input v;
      destroy_keeps =
          λ ctx h v i. destroy_keeps host cfg (λ w. laws.Drawn w i) (laws.kept i) ctx h v;
    }
