-- ===== src/Sandbox/Firecracker/Config.antt =====
-- The defaults and the checks of the configuration of sandbox/firecracker.go.
use emberbox.Prelude.{inr, inl, List-cases, ◌≢◌, ◌≡◌, refl, Text, ◌↔◌, none, [], ◌∷◌}
use emberbox.Sandbox.Firecracker.{FirecrackerConfig, validate_config, or_text}

or_text_twice : (s d : Text) → or_text (or_text s d) d ≡ or_text s d
unfolding or_text
or_text_twice [] [] = refl
or_text_twice [] (c ∷ d) = refl
or_text_twice (c ∷ s) d = refl

-- A configuration passes the check exactly when it names a kernel and a root file system.
pub validate_config_iff :
    (cfg : FirecrackerConfig)
    → (validate_config cfg ≡ none) ↔ ((cfg.kernel_path ≢ []) × (cfg.rootfs_path ≢ []))
unfolding validate_config
validate_config_iff cfg = elim (List-cases cfg.kernel_path) [
  | inl e ↦ elim (List-cases cfg.rootfs_path) [
    | inl f ↦ rw (e, f) ((λ h. cc), (λ h. absurd (h.0 refl)))
    | inr (c, cs, f) ↦ rw (e, f) ((λ h. cc), (λ h. absurd (h.0 refl)))
  ]
  | inr (c, cs, e) ↦ elim (List-cases cfg.rootfs_path) [
    | inl f ↦ rw (e, f) ((λ h. cc), (λ h. absurd (h.1 refl)))
    | inr (d, ds, f) ↦ rw (e, f) ((λ h. ((λ k. cc), (λ k. cc))), (λ h. refl))
  ]
]
