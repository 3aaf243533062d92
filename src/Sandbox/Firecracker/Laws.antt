-- ===== src/Sandbox/Firecracker/Laws.antt =====
-- What the lifecycle of a microVM in sandbox/firecracker.go promises.
use emberbox.Prelude.Int.{ℤ}
use emberbox.Prelude.{
  inr, Bool-cases, inl, List-cases, ◌≢◌, Option-cases, ◌≡◌, refl, Text, ℕ, true, Option, none, some,
  [],
}
use emberbox.Prelude.Dict
use emberbox.Prelude.Dict.{Dict}
use emberbox.Errors.{Result, ok, err, Error}
use emberbox.Context.{Context}
use emberbox.Sandbox.{AllocRequest}
use emberbox.Sandbox.Handles.{FirecrackerHandle}
use emberbox.Sandbox.Firecracker.{validate_config, FirecrackerConfig}
use emberbox.Sandbox.Firecracker.Machine.{
  kill_after, clean_up, Machine, Vms, Launch, destroy_handle, terminate,
}
use emberbox.Sandbox.Firecracker.Boot.{
  handle_in, named_dir, after_launch, after_drive, after_create, Host, boot,
}

-- What the code relies on of the operating system: `IsGone` says that a process has exited.
pub record Stops {W : Type 0} (m : Machine W) : Type 1 where
  pub IsGone : ℕ → W → Type 0
  pub exits_gone :
      (pid : ℕ) (d : ℤ) (w : W) → (m.exits pid d w).0 ≡ true → IsGone pid (m.exits pid d w).1
  pub wait_gone : (pid : ℕ) (w : W) → IsGone pid (m.wait pid w)
  pub close_keeps : (f pid : ℕ) (w : W) → IsGone pid w → IsGone pid (m.close_file f w)
  pub remove_keeps : (d : Text) (pid : ℕ) (w : W) → IsGone pid w → IsGone pid (m.remove_all d w).1

module _ {W : Type 0} (m : Machine W) (cfg : FirecrackerConfig) where
  destroy_handle_twice :
      (h : FirecrackerHandle) (v : Vms W)
      → let (e, v') = destroy_handle m cfg h v in destroy_handle m cfg h v' ≡ (e, v')
  unfolding destroy_handle terminate
  destroy_handle_twice h v = elim (Option-cases (Dict.lookup h.id v.stops)) [
    | inl e ↦ rw (destroy_handle, e, Dict.lookup-insert_self) refl
    | inr (x, e) ↦ rw (destroy_handle, e) (rw e refl)
  ]

  module _ (laws : Stops m) where
    kill_after-IsGone :
        (pid : ℕ) (d : ℤ) (w : W) → laws.IsGone pid (kill_after m cfg pid (m.exits pid d w))
    kill_after-IsGone pid d w = elim (Bool-cases (m.exits pid d w).0) [
      | inl e ↦ rw e (laws.exits_gone pid d w e)
      | inr e ↦ rw e (laws.wait_gone pid _)
    ]

    clean_up-IsGone :
        (h : FirecrackerHandle) (pid : ℕ) (w : W)
        → laws.IsGone pid w
        → laws.IsGone pid (clean_up m cfg h w)
    clean_up-IsGone h pid w gone = elim (List-cases h.work_dir) [
      | inl e ↦ rw e (laws.close_keeps h.log_file pid w gone)
      | inr (c, cs, e) ↦ rw e (laws.remove_keeps _ pid _ (laws.close_keeps h.log_file pid w gone))
    ]

    pub destroy_handle-IsGone :
        (h : FirecrackerHandle) (v : Vms W) (pid : ℕ)
        → h.pid ≡ some pid
        → Dict.lookup h.id v.stops ≡ none
        → let (e, v') = destroy_handle m cfg h v in (e ≡ none) × laws.IsGone pid v'.host
    unfolding destroy_handle terminate
    destroy_handle-IsGone h v pid has new =
        rw (new, has) (refl, clean_up-IsGone h pid _ (kill_after-IsGone pid cfg.stop_timeout _))

    -- The first destroyHandle of a microVM reports no error, and its process has exited, also when
    -- it outlives the time that SIGTERM is given; a second one returns what the first did and
    -- changes nothing.
    pub destroy_handle_lem :
        (h : FirecrackerHandle) (v : Vms W) (pid : ℕ)
        → h.pid ≡ some pid
        → Dict.lookup h.id v.stops ≡ none
        → let (e, v') = destroy_handle m cfg h v in
          (e ≡ none) × laws.IsGone pid v'.host × (destroy_handle m cfg h v' ≡ (e, v'))
    destroy_handle_lem h v pid has new =
        let (clean, gone) = destroy_handle-IsGone h v pid has new in
        (clean, gone, destroy_handle_twice h v)

module _ {W : Type 0} (host : Host W) (cfg : FirecrackerConfig) where
  -- RemoveAll of the directory was the last thing that happened.
  abbrev pub EndsRemoved : Text → Vms W → Type 0
  EndsRemoved dir v = (w : W) × (v.host ≡ (host.machine.remove_all dir w).1)

  clean_up_removes :
      (h : FirecrackerHandle) (w : W)
      → h.work_dir ≢ []
      → (w' : W) × (clean_up host.machine cfg h w ≡ (host.machine.remove_all h.work_dir w').1)
  clean_up_removes h w named = elim (List-cases h.work_dir) [
    | inl e ↦ absurd (named e)
    | inr (c, cs, e) ↦ (host.machine.close_file h.log_file w, rw e refl)
  ]

  after_drive-EndsRemoved :
      (h : FirecrackerHandle) (stops : Dict (Option Error)) (r : Option Error × W) (e : Error)
      → h.work_dir ≢ []
      → Dict.lookup h.id stops ≡ none
      → (after_drive host cfg h stops r).0 ≡ err e
      → EndsRemoved h.work_dir (after_drive host cfg h stops r).1
  unfolding destroy_handle terminate
  after_drive-EndsRemoved h stops (none, w) e named new failed = cc
  after_drive-EndsRemoved h stops (some x, w) e named new failed =
      rw new (clean_up_removes h _ named)

  module _ (launch : Launch W) (ctx : Context) (i dir : Text) (req : AllocRequest)
      (stops : Dict (Option Error)) where
    after_launch-EndsRemoved :
        (log_file : ℕ) (r : Result (Option ℕ) × W) (e : Error)
        → dir ≢ []
        → Dict.lookup i stops ≡ none
        → (after_launch host cfg launch ctx i dir req log_file stops r).0 ≡ err e
        → EndsRemoved dir (after_launch host cfg launch ctx i dir req log_file stops r).1
    after_launch-EndsRemoved log_file (err x, w) e named new failed = (_, refl)
    after_launch-EndsRemoved log_file (ok pid, w) e named new failed =
        after_drive-EndsRemoved (handle_in host cfg i dir req log_file pid) stops _ e named new
          failed

    after_create-EndsRemoved :
        (r : Result ℕ × W) (e : Error)
        → dir ≢ []
        → Dict.lookup i stops ≡ none
        → (after_create host cfg launch ctx i dir req stops r).0 ≡ err e
        → EndsRemoved dir (after_create host cfg launch ctx i dir req stops r).1
    after_create-EndsRemoved (err x, w) e named new failed = (_, refl)
    after_create-EndsRemoved (ok log_file, w) e named new failed =
        after_launch-EndsRemoved log_file _ e named new failed

  -- A Boot that fails once it has made the working directory, at any later point, ends by
  -- removing it: if the directory has a name and the identity is new.
  pub boot-EndsRemoved :
      (launch : Launch W) (ctx : Context) (req : AllocRequest) (v : Vms W) (dir : Text) (e : Error)
      → validate_config cfg ≡ none
      → (named_dir host cfg launch v.host).1 ≡ ok dir
      → dir ≢ []
      → Dict.lookup (named_dir host cfg launch v.host).0 v.stops ≡ none
      → (boot host cfg launch ctx req v).0 ≡ err e
      → EndsRemoved dir (boot host cfg launch ctx req v).1
  unfolding boot
  boot-EndsRemoved launch ctx req v dir e valid made named new failed =
      let failed' = rw (boot, valid, made) at failed in
      rw (valid, made) (after_create-EndsRemoved launch ctx _ dir req v.stops _ e named new failed')
