-- ===== src/Sandbox/Pool/Retirement/Effects.antt =====
-- sandbox/sandbox.go: what one step of a goroutine does to live and destroyed sandboxes.
use emberbox.Prelude.{
  Option, zero, suc, ◌≡◌, refl, ◌⊎◌, inl, inr, Text, some, none, List, [], ◌∷◌, arith,
}
use emberbox.Errors.{Result, ok, err}
use emberbox.Context.{Context, background}
use emberbox.Sandbox.{Backend, AllocRequest, IssuesFreshIds}
use emberbox.Sandbox.Pool.Sections.{Pool, default_request}
use emberbox.Sandbox.Pool.Methods.{dispatch}
use emberbox.Sandbox.Pool.Threads.{
  Thread, Move, allocates, boots, refills, dispatches, destroys, advance, after_first,
}
use emberbox.Sandbox.Pool.Ownership.Steps.{held}
use emberbox.Sandbox.Retiring.{Retires}

module _ (B : Backend) (L : IssuesFreshIds B) (R : Retires B L) where
  open R use {Live, Gone, Sound}

  abbrev pub Keeps : B.World → B.World → Type 0
  Keeps w w' =
      ((i : Text) → L.Issued w i → Live w i → Live w' i)
      × ((g : B.Handle) → Gone w g → Gone w' g)
      × (Sound w → Sound w')

  -- A step that destroys nothing, and boots one sandbox at most.
  abbrev pub IsBooting : B.World → Move B → Type 0
  IsBooting w m =
      Keeps w m.world
      × (m.destroyed ≡ [])
      × ((m.booted ≡ []) ⊎ ((h : B.Handle) × (m.booted ≡ h ∷ []) × Live m.world (B.id h)))

  -- A step that destroys one of the sandboxes that its goroutine holds.
  abbrev pub IsDestroying : B.World → Thread B → Move B → Type 0
  IsDestroying w th m =
      (c : Context) × (h : B.Handle) × (hs : List B.Handle) × (held B th ≡ h ∷ hs)
      × (m.destroyed ≡ h ∷ [])
      × (m.booted ≡ [])
      × (m.world ≡ (B.destroy c h w).1)

  unchanged : (w : B.World) → Keeps w w
  unchanged w = (λ i issued l. l, λ g gone. gone, λ sound. sound)

  booted-IsBooting :
      (w : B.World) (c : Context) (req : AllocRequest) (r : Result B.Handle) (m : Move B)
      → Sound w
      → (B.boot c req w).0 ≡ r
      → m.world ≡ (B.boot c req w).1
      → m.booted ≡ (elim r [ ok h ↦ h ∷ [] | err e ↦ [] ])
      → m.destroyed ≡ []
      → IsBooting w m
  booted-IsBooting w c req (ok h) m sound e same b d = rw same (
      (
        (R.boot_keeps_live c req w, R.boot_keeps_gone c req w, R.boot_sound c req w),
        d,
        inr (h, b, R.boot_live c req w h sound e),
      ))
  booted-IsBooting w c req (err x) m sound e same b d =
      rw same
        (((R.boot_keeps_live c req w, R.boot_keeps_gone c req w, R.boot_sound c req w), d, inl b))

  first-IsBooting :
      (p : Pool B) (w : B.World) (c : Context) (req : AllocRequest) (o : Option (B.Handle × Pool B))
      → IsBooting w (after_first B p w c req o)
  first-IsBooting p w c req none = (unchanged w, refl, inl refl)
  first-IsBooting p w c req (some (h, p')) = (unchanged w, refl, inl refl)

  pub advance-effect :
      (p : Pool B) (w : B.World) (th : Thread B)
      → Sound w
      → IsBooting w (advance B p w th) ⊎ IsDestroying w th (advance B p w th)
  unfolding advance dispatch
  advance-effect p w (allocates ctx req) sound = inl (first-IsBooting p w ctx _ _)
  advance-effect p w (boots ctx req) sound = inl (
      booted-IsBooting w ctx req _ (advance B p w (boots ctx req)) sound refl (ground arith)
        (ground arith) (ground arith))
  advance-effect p w (refills zero) sound = inl (unchanged w, refl, inl refl)
  advance-effect p w (refills (suc n)) sound = inl (
      booted-IsBooting w background (default_request p.cfg) _ (advance B p w (refills (suc n)))
        sound refl (ground arith) (ground arith) (ground arith))
  advance-effect p w (dispatches c a) sound = inl (
    (
      λ i issued l. R.exec_keeps_live _ _ _ _ w i l,
      λ g gone. R.exec_keeps_gone _ _ _ _ w g gone,
      λ s. R.exec_sound _ _ _ _ w s,
    ),
    refl,
    inl refl,
  )
  advance-effect p w (destroys ctx []) sound = inl (unchanged w, refl, inl refl)
  advance-effect p w (destroys ctx (h ∷ hs)) sound = inr (ctx, h, hs, refl, refl, refl, refl)
  advance-effect p w _ sound = inl (unchanged w, refl, inl refl)
