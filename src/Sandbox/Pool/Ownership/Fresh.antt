-- ===== src/Sandbox/Pool/Ownership/Fresh.antt =====
-- The identities that a step of a goroutine of sandbox/sandbox.go adds are new to its backend.
use emberbox.Prelude.{zero, suc, ◌≡◌, refl, ◌⊎◌, inl, inr, Text, List, [], ◌∷◌, arith}
use emberbox.Errors.{Result, ok, err}
use emberbox.Context.{Context, background}
use emberbox.Sandbox.{Backend, AllocRequest, IssuesFreshIds}
use emberbox.Sandbox.Pool.Sections.{Pool, default_request}
use emberbox.Sandbox.Pool.Methods.{dispatch}
use emberbox.Sandbox.Pool.Threads.{
  boots, destroys, Thread, allocates, refills, dispatches, Move, advance,
}

module _ (B : Backend) (L : IssuesFreshIds B) where
  open L use {Issued, boot_fresh, boot_issues, boot_keeps, exec_keeps, destroy_keeps}

  abbrev from_result : Result B.Handle → List B.Handle
  from_result (ok h) = h ∷ []
  from_result (err _) = []

  -- What the backend has issued stays issued, and a booted handle is new.
  abbrev pub IsFresh : B.World → Move B → Type 0
  IsFresh w m =
      ((x : Text) → Issued w x → Issued m.world x)
      × ((m.booted ≡ [])
          ⊎ ((h : B.Handle) × (m.booted ≡ h ∷ [])
              × (¬ Issued w (B.id h))
              × Issued m.world (B.id h)))

  -- A move made after a boot with the result `r` is fresh, if it records what was booted.
  booted-IsFresh :
      (w : B.World) (ctx : Context) (req : AllocRequest) (r : Result B.Handle) (m : Move B)
      → (B.boot ctx req w).0 ≡ r
      → m.world ≡ (B.boot ctx req w).1
      → m.booted ≡ from_result r
      → IsFresh w m
  booted-IsFresh w ctx req (ok h) m e same b = (
    λ x i. rw same (boot_keeps ctx req w x i),
    inr (h, b, boot_fresh ctx req w h e, rw same (boot_issues ctx req w h e)),
  )
  booted-IsFresh w ctx req (err x) m e same b = (λ x i. rw same (boot_keeps ctx req w x i), inl b)

  unchanged-IsFresh : (w : B.World) (m : Move B) → m.world ≡ w → m.booted ≡ [] → IsFresh w m
  unchanged-IsFresh w m same b = (λ x i. rw same i, inl b)

  pub advance-IsFresh : (p : Pool B) (w : B.World) (th : Thread B) → IsFresh w (advance B p w th)
  unfolding advance dispatch
  advance-IsFresh p w (allocates ctx req) =
      unchanged-IsFresh w (advance B p w (allocates ctx req)) (ground arith) (ground arith)
  advance-IsFresh p w (boots ctx req) =
      booted-IsFresh w ctx req _ (advance B p w (boots ctx req)) refl (ground arith) (ground arith)
  advance-IsFresh p w (refills zero) = (λ x i. i, inl refl)
  advance-IsFresh p w (refills (suc n)) =
      booted-IsFresh w background (default_request p.cfg) _ (advance B p w (refills (suc n))) refl
        (ground arith) (ground arith)
  advance-IsFresh p w (dispatches c a) = (λ x i. exec_keeps _ _ _ _ w x i, inl refl)
  advance-IsFresh p w (destroys ctx []) = (λ x i. i, inl refl)
  advance-IsFresh p w (destroys ctx (h ∷ hs)) = (λ x i. destroy_keeps ctx h w x i, inl refl)
  advance-IsFresh p w _ = (λ x i. i, inl refl)
