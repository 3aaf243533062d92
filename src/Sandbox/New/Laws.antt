-- ===== src/Sandbox/New/Laws.antt =====
-- What selectBackend of sandbox/sandbox.go promises.
use emberbox.Prelude.Int.{ℤ, pos}
use emberbox.Sandbox.Pool.Sections.{or_default}
use emberbox.Prelude.{
  text_eq-false, arith, ◌≡◌, ◌≢◌, ◌⊎◌, inl, inr, refl, Text, none, some, Option-cases, Bool-cases,
  text_eq, text_eq_iff, is_empty, if◌then◌else◌,
}
use emberbox.Errors.{Error}
use emberbox.Tool.{Tools}
use emberbox.Sandbox.{Backend}
use emberbox.Sandbox.Host.{new_host_backend}
use emberbox.Sandbox.Firecracker.{FirecrackerConfig, new_firecracker_backend}
use emberbox.Sandbox.New.{
  unknown_mode, derived_config, no_tools, Config, Selected, selected, refused, custom, host_choice,
  firecracker_choice, mode_host, mode_firecracker, select_backend,
}

-- The mode that counts: the host's, if none is set.
abbrev pub mode_of : Text → Text
mode_of mode = if is_empty mode then mode_host else mode

or_default_set : (x : ℤ) → or_default x (pos 128) ≢ pos 0
or_default_set x = ground arith

module _ {W : Type 0} (getwd temp_dir : Text) (quote : Text → Text) (cfg : Config W) where
  abbrev pub IsHost : Selected W → Type 1
  IsHost s =
      (mode_of cfg.mode ≡ mode_host)
      × (((tools : Tools W) × (cfg.tools ≡ some tools)
            × (s ≡ selected (host_choice (new_host_backend tools getwd))))
          ⊎ ((cfg.tools ≡ none) × (e : Error) × (s ≡ refused e)))

  abbrev pub IsFirecracker : Selected W → Type 1
  IsFirecracker s =
      (mode_of cfg.mode ≡ mode_firecracker)
      × (fc : FirecrackerConfig) × (s ≡ selected (firecracker_choice fc))
      × (fc.kernel_path ≡ cfg.kernel_path)
      × (fc.rootfs_path ≡ cfg.rootfs_path)
      × (fc.default_memory_mb ≢ pos 0)
      × (fc.agent_port ≡ 10000)

  abbrev pub IsUnknown : Selected W → Type 1
  IsUnknown s =
      (mode_of cfg.mode ≢ mode_host)
      × (mode_of cfg.mode ≢ mode_firecracker)
      × (e : Error) × (s ≡ refused e)

  abbrev pub SelectOutcome : Selected W → Type 1
  SelectOutcome s =
      ((b : Backend) × (cfg.backend ≡ some b) × (s ≡ selected (custom b)))
      ⊎ ((cfg.backend ≡ none) × (IsHost s ⊎ (IsFirecracker s ⊎ IsUnknown s)))

  pub select_backend-SelectOutcome : SelectOutcome (select_backend getwd temp_dir quote cfg)
  unfolding select_backend new_firecracker_backend
  select_backend-SelectOutcome = elim (Option-cases cfg.backend) [
    | inr (b, e) ↦ inl (b, e, rw e refl)
    | inl e ↦ elim (Bool-cases (text_eq (mode_of cfg.mode) mode_host)) [
      | inl host ↦ elim (Option-cases cfg.tools) [
        | inl without ↦
            inr (
              e,
              inl ((text_eq_iff _ _).0 host, inr (without, no_tools, rw (e, host, without) refl)),
            )
        | inr (tools, has) ↦
            inr (e, inl ((text_eq_iff _ _).0 host, inl (tools, has, rw (e, host, has) refl)))
      ]
      | inr other ↦ elim (Bool-cases (text_eq (mode_of cfg.mode) mode_firecracker)) [
        | inl fc ↦ inr (
          e,
          inr (
              inl (
                (text_eq_iff _ _).0 fc,
                derived_config getwd temp_dir quote cfg,
                rw (e, other, fc) refl,
                refl,
                refl,
                or_default_set cfg.pool.default_memory_mb,
                refl,
              )),
        )
        | inr none_such ↦ inr (
          e,
          inr (
              inr (
                text_eq-false _ _ other,
                text_eq-false _ _ none_such,
                unknown_mode quote (mode_of cfg.mode),
                rw (e, other, none_such) refl,
              )),
        )
      ]
    ]
  ]
