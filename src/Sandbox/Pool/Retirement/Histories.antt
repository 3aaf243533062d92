-- ===== src/Sandbox/Pool/Retirement/Histories.antt =====
-- sandbox/sandbox.go: the sandboxes that were destroyed after New and any calls.
use emberbox.Prelude.{
  ℕ, zero, suc, ◌<◌, ◌≤◌, ◌≡◌, refl, inl, inr, Text, List, [], ◌∷◌, arith, All, Bool-cases, text_eq,
  text_eq_iff, replicate, length,
}
use mathlib.Core.Path.{subst}
use emberbox.Prelude.Tally.{miss}
use emberbox.Errors.{Result, ok, err}
use emberbox.Context.{Context, background}
use emberbox.Sandbox.{Backend, IssuesFreshIds}
use emberbox.Sandbox.Retiring.{Retires}
use emberbox.Sandbox.Pool.Sections.{
  Pool, PoolConfig, empty_pool, add_warm, default_request, rounds, take_all,
}
use emberbox.Sandbox.Pool.Methods.{warmed, start, fill}
use emberbox.Sandbox.Pool.Threads.{Event, arrives, runs, shutdown_call, run}
use emberbox.Sandbox.Pool.Ownership.{Inv, run-Inv}
use emberbox.Sandbox.Pool.Ownership.Counts.{count, count-cons, count-nil}
use emberbox.Sandbox.Pool.Ownership.Steps.{count_threads}
use emberbox.Sandbox.Pool.Histories.{idle, opened, idle-Inv_nil, warmed-Inv, opened-Inv}
use emberbox.Sandbox.Pool.Shutdown.{shutdown_drains}
use emberbox.Sandbox.Pool.Retirement.{Retired, run-Retired}

module _ (B : Backend) (L : IssuesFreshIds B) (R : Retires B L) where
  open R use {Live, Gone, Sound}

  -- Every warm sandbox is live.
  abbrev IsWarm : Pool B → B.World → Type 0
  IsWarm p w = Sound w × ((t : Text) → 0 < count B t p.warm → Live w t)

  warmed-IsWarm :
      (p : Pool B) (w : B.World) (r : Result B.Handle)
      → (B.boot background (default_request p.cfg) w).0 ≡ r
      → Inv B L (idle B (p, w))
      → IsWarm p w
      → IsWarm (warmed B p r) (B.boot background (default_request p.cfg) w).1
  unfolding add_warm
  warmed-IsWarm p w (err x) e v (sound, live) = (
    R.boot_sound background _ w sound,
    λ t more. R.boot_keeps_live background _ w t (v.issued t more) (live t more),
  )
  warmed-IsWarm p w (ok h) e v (sound, live) = (
    R.boot_sound background _ w sound,
    λ t more. elim (Bool-cases (text_eq (B.id h) t)) [
      | inl same ↦
          subst (Live (B.boot background (default_request p.cfg) w).1)
            ((text_eq_iff (B.id h) t).0 same) (R.boot_live background _ w h sound e)
      | inr other ↦
          let old : 0 < count B t p.warm =
            omega (arith, more, count-cons B t h p.warm, miss t (B.id h) other) in
          R.boot_keeps_live background _ w t (v.issued t old) (live t old)
    ],
  )

  fill-IsWarm :
      (n : ℕ) (p : Pool B) (w : B.World)
      → Inv B L (idle B (p, w))
      → IsWarm p w
      → let (q, w') = fill B n p w in IsWarm q w'
  unfolding fill
  fill-IsWarm zero p w v warm = warm
  fill-IsWarm (suc n) p w v warm =
      fill-IsWarm n _ _ (warmed-Inv B L p w _ refl v) (warmed-IsWarm p w _ refl v warm)

  empty-IsWarm : (cfg : PoolConfig) (w : B.World) → Sound w → IsWarm (empty_pool B cfg) w
  unfolding empty_pool
  empty-IsWarm cfg w sound = (sound, λ t more. absurd (omega (arith, more, count-nil B t)))

  opened-Retired : (cfg : PoolConfig) (w : B.World) → Sound w → Retired B L R (opened B cfg w)
  unfolding opened start
  opened-Retired cfg w sound =
      let (kept, live) =
        fill-IsWarm (rounds cfg.pool_size) (empty_pool B cfg) w (idle-Inv_nil B L cfg w)
          (empty-IsWarm cfg w sound) in
      record { live = λ t booted whole. live t booted; sound = kept; gone = tt }

  pub opened_run-Retired :
      (cfg : PoolConfig) (w : B.World) (es : List Event)
      → Sound w
      → Retired B L R (run B (opened B cfg w) es)
  opened_run-Retired cfg w es sound =
      run-Retired B L R (opened B cfg w) es (opened-Inv B L cfg w) (opened-Retired cfg w sound)

  -- Any history, and then Shutdown with no other call in between.
  pub shutdown_retires :
      (cfg : PoolConfig) (w : B.World) (es : List Event) (ctx : Context) (x : Text)
      → Sound w
      → ((y : Text) → count_threads B y (run B (opened B cfg w) es).threads ≡ 0)
      → let s = run B (opened B cfg w) es in
        let n = suc (length (take_all B s.pool).0) in
        let t = run B s (arrives (shutdown_call ctx) ∷ replicate n (runs (length s.threads))) in
        (t.pool.warm ≡ [])
        × (t.pool.active ≡ [])
        × (count B x t.destroyed ≡ count B x s.booted)
        × (count B x t.destroyed ≤ 1)
        × All (Gone t.world) t.destroyed
  shutdown_retires cfg w es ctx x sound quiet =
      let s = run B (opened B cfg w) es in
      let v = run-Inv B L (opened B cfg w) es (opened-Inv B L cfg w) in
      let (warm, active, all, once) = shutdown_drains B L s ctx x v quiet in
      let r = run-Retired B L R s _ v (opened_run-Retired cfg w es sound) in
      (warm, active, all, once, r.gone)
