-- ===== src/Sandbox/Firecracker/Retirement.antt =====
-- sandbox/firecracker.go: what Destroy does to the process of a microVM, whatever is called before
-- and after it.
pub mod Histories
use mathlib.Core.Path.{subst}
use emberbox.Prelude.{
  false, text_eq-false, Text, ℕ, some, none, Option, ◌≡◌, ◌≢◌, refl, sym, ap, ◌∙◌, ◌⊎◌,
  Option-cases, Bool-cases, text_eq, text_eq_iff, inl, inr,
}
use emberbox.Prelude.Dict
use emberbox.Prelude.Dict.{Dict}
use emberbox.Errors.{ok, Error}
use emberbox.Context.{Context}
use emberbox.Sandbox.{AllocRequest}
use emberbox.Sandbox.Handles.{
  AnyHandle, of_firecracker, of_host, foreign, handle_id, FirecrackerHandle, assert_firecracker,
}
use emberbox.Sandbox.Firecracker.{FirecrackerConfig, validate_config}
use emberbox.Sandbox.Firecracker.Machine.{Vms, Launch, destroy_handle}
use emberbox.Sandbox.Firecracker.Boot.{Host, boot, exec, destroy}
use emberbox.Sandbox.Firecracker.Laws.{Stops, destroy_handle-IsGone}
use emberbox.Sandbox.Firecracker.Keeping.{IsKept}
use emberbox.Sandbox.Firecracker.Keeping.Lifecycle.{exec_keeps, destroy_keeps}
use emberbox.Sandbox.Firecracker.Identities.{
  LaunchKeeps, FreshVms, Grows, destroy_handle-Grows, next_id, boot-BootOutcome, booted_id,
  valid_drawn, boot_draws,
}

-- What is relied on of the processes: those of Stops, and that the number of a process that has
-- exited is not given to another one.
pub record Reaps {W : Type 0} (host : Host W) (launch : Launch W) : Type 1 where
  pub stops : Stops host.machine
  pub kept : (pid : ℕ) → IsKept host (stops.IsGone pid)
  pub launch_kept : (pid : ℕ) → LaunchKeeps launch (stops.IsGone pid)

module _ {W : Type 0} (host : Host W) (cfg : FirecrackerConfig) (launch : Launch W)
    (fresh : FreshVms host launch) (reaps : Reaps host launch) where
  -- No Once of an identity has run that was never drawn.
  abbrev pub IsStopped : Vms W → Type 0
  IsStopped v =
      (i : Text) (e : Option Error) → Dict.lookup i v.stops ≡ some e → fresh.Drawn v.host i

  abbrev pub HasExited : Option ℕ → W → Type 0
  HasExited none w = Unit
  HasExited (some pid) w = reaps.stops.IsGone pid w

  -- The process of a microVM, if it has one, has exited.
  abbrev pub IsOff : Vms W → AnyHandle → Type 0
  IsOff v (of_firecracker h) = HasExited h.pid v.host
  IsOff v _ = Unit

  pub lookup-Grows_ne :
      (i j : Text) (stops stops' : Dict (Option Error))
      → Grows host cfg launch i stops stops'
      → i ≢ j
      → Dict.lookup j stops' ≡ Dict.lookup j stops
  lookup-Grows_ne i j stops stops' (inl same) other = ap (Dict.lookup j) same
  lookup-Grows_ne i j stops stops' (inr (e, same)) other =
      let apart : text_eq i j ≡ false = elim (Bool-cases (text_eq i j)) [
        | inl equal ↦ absurd (other ((text_eq_iff i j).0 equal))
        | inr apart ↦ apart
      ] in
      ap (Dict.lookup j) same ∙ (Dict.lookup-insert i j e stops ∙ rw apart refl)

  lookup-Grows :
      (i j : Text) (stops stops' : Dict (Option Error)) (e : Option Error)
      → Grows host cfg launch i stops stops'
      → Dict.lookup j stops' ≡ some e
      → (i ≡ j) ⊎ (Dict.lookup j stops ≡ some e)
  lookup-Grows i j stops stops' e grows found = elim (Bool-cases (text_eq i j)) [
    | inl same ↦ inl ((text_eq_iff i j).0 same)
    | inr other ↦
        inr (sym (lookup-Grows_ne i j stops stops' grows (text_eq-false i j other)) ∙ found)
  ]

  boot-Grows :
      (ctx : Context) (req : AllocRequest) (v : Vms W)
      → Grows host cfg launch
          (next_id host cfg launch v)
          v.stops
          (boot host cfg launch ctx req v).1.stops
  boot-Grows ctx req v = elim (boot-BootOutcome host cfg launch ctx req v) [
    | inl (h, made, same, kept) ↦ inl kept
    | inr (e, failed, grows) ↦ grows
  ]

  pub boot-IsStopped :
      (ctx : Context) (req : AllocRequest) (v : Vms W)
      → IsStopped v
      → IsStopped (boot host cfg launch ctx req v).1
  unfolding boot
  boot-IsStopped ctx req v sound = elim (Option-cases (validate_config cfg)) [
    | inl valid ↦ λ j e found. elim (lookup-Grows _ j v.stops _ e (boot-Grows ctx req v) found) [
      | inl at_j ↦ subst (fresh.Drawn _) at_j (valid_drawn host cfg launch fresh ctx req v valid)
      | inr before ↦ boot_draws host cfg launch fresh ctx req v j (sound j e before)
    ]
    | inr (x, invalid) ↦ rw (boot, invalid) sound
  ]

  pub exec-stops :
      (ctx : Context) (h : AnyHandle) (tool input : Text) (v : Vms W)
      → (exec host cfg ctx h tool input v).1.stops ≡ v.stops
  unfolding exec assert_firecracker
  exec-stops ctx (of_firecracker h) tool input v = refl
  exec-stops ctx (of_host h) tool input v = refl
  exec-stops ctx (foreign i kind) tool input v = refl

  pub exec-IsStopped :
      (ctx : Context) (h : AnyHandle) (tool input : Text) (v : Vms W)
      → IsStopped v
      → IsStopped (exec host cfg ctx h tool input v).1
  exec-IsStopped ctx h tool input v sound j e found =
      exec_keeps host cfg (λ w. fresh.Drawn w j) (fresh.kept j) ctx h tool input v
        (sound j e (sym (ap (Dict.lookup j) (exec-stops ctx h tool input v)) ∙ found))

  pub destroy-Grows :
      (ctx : Context) (h : AnyHandle) (v : Vms W)
      → Grows host cfg launch (handle_id h) v.stops (destroy host cfg ctx h v).1.stops
  unfolding destroy assert_firecracker
  destroy-Grows ctx (of_firecracker h) v = destroy_handle-Grows host cfg launch h v
  destroy-Grows ctx (of_host h) v = inl refl
  destroy-Grows ctx (foreign i kind) v = inl refl

  pub destroy-IsStopped :
      (ctx : Context) (h : AnyHandle) (v : Vms W)
      → fresh.Drawn v.host (handle_id h)
      → IsStopped v
      → IsStopped (destroy host cfg ctx h v).1
  destroy-IsStopped ctx h v drawn sound j e found =
      destroy_keeps host cfg (λ w. fresh.Drawn w j) (fresh.kept j) ctx h v
        (elim (lookup-Grows (handle_id h) j v.stops _ e (destroy-Grows ctx h v) found) [
          | inl at_j ↦ subst (fresh.Drawn v.host) at_j drawn
          | inr before ↦ sound j e before
        ])

  pub boot_open :
      (ctx : Context) (req : AllocRequest) (v : Vms W) (h : AnyHandle)
      → IsStopped v
      → (boot host cfg launch ctx req v).0 ≡ ok h
      → Dict.lookup (handle_id h) (boot host cfg launch ctx req v).1.stops ≡ none
  boot_open ctx req v h sound e =
      let (at_id, same) = booted_id host cfg launch ctx req v h e in
      elim (Option-cases (Dict.lookup (handle_id h) v.stops)) [
        | inl unrun ↦ ap (Dict.lookup (handle_id h)) same ∙ unrun
        | inr (x, stopped) ↦ absurd (
            fresh.new_fresh v.host
              (subst (fresh.Drawn v.host) at_id (sound (handle_id h) x stopped)))
      ]

  pub boot_keeps_open :
      (ctx : Context) (req : AllocRequest) (v : Vms W) (j : Text)
      → fresh.Drawn v.host j
      → Dict.lookup j v.stops ≡ none
      → Dict.lookup j (boot host cfg launch ctx req v).1.stops ≡ none
  boot_keeps_open ctx req v j drawn unrun =
      lookup-Grows_ne _ j v.stops _ (boot-Grows ctx req v)
        (λ same. fresh.new_fresh v.host (subst (fresh.Drawn v.host) (sym same) drawn))
      ∙ unrun

  HasExited_keeps :
      (w w' : W) (pid : Option ℕ)
      → ((p : ℕ) → reaps.stops.IsGone p w → reaps.stops.IsGone p w')
      → HasExited pid w
      → HasExited pid w'
  HasExited_keeps w w' none keeps gone = tt
  HasExited_keeps w w' (some pid) keeps gone = keeps pid gone

  pub vms-IsOff_keep :
      (v v' : Vms W) (h : AnyHandle)
      → ((p : ℕ) → reaps.stops.IsGone p v.host → reaps.stops.IsGone p v'.host)
      → IsOff v h
      → IsOff v' h
  vms-IsOff_keep v v' (of_firecracker h) keeps off = HasExited_keeps v.host v'.host h.pid keeps off
  vms-IsOff_keep v v' (of_host h) keeps off = tt
  vms-IsOff_keep v v' (foreign i kind) keeps off = tt

  exited :
      (h : FirecrackerHandle) (v : Vms W) (pid : Option ℕ)
      → h.pid ≡ pid
      → Dict.lookup h.id v.stops ≡ none
      → HasExited pid (destroy_handle host.machine cfg h v).1.host
  exited h v none has unrun = tt
  exited h v (some pid) has unrun =
      (destroy_handle-IsGone host.machine cfg reaps.stops h v pid has unrun).1

  pub destroy-IsOff :
      (ctx : Context) (h : AnyHandle) (v : Vms W)
      → Dict.lookup (handle_id h) v.stops ≡ none
      → IsOff (destroy host cfg ctx h v).1 h
  unfolding destroy assert_firecracker
  destroy-IsOff ctx (of_firecracker h) v unrun = exited h v h.pid refl unrun
  destroy-IsOff ctx (of_host h) v unrun = tt
  destroy-IsOff ctx (foreign i kind) v unrun = tt
