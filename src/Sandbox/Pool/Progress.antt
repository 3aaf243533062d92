-- ===== src/Sandbox/Pool/Progress.antt =====
-- The goroutines of sandbox/sandbox.go under concurrent calls: how many steps each makes at most,
-- whatever the others do in between. A call of the backend is one step.
pub mod Interleaved
use emberbox.Prelude.Int.{◌-ℤ◌}
use emberbox.Sandbox.Pool.Methods.{boot_prefix, not_found}
use emberbox.Context.{Context, background}
use emberbox.Errors.{err, ok, wrap, Result-cases}
use mathlib.Core.Path.{subst}
use native.Mathlib.Decide.{ℕ_discrete}
use emberbox.Prelude.{
  ◌-◌, ap, Text, inl, inr, Option-cases, ℕ, zero, suc, Option, none, some, List, [], ◌∷◌, Bool,
  true, false, ◌≡◌, ◌≤◌, refl, sym, arith, length,
}
use emberbox.Sandbox.{AllocRequest, Backend}
use emberbox.Sandbox.Pool.Sections.{
  Allocation, take_warm, find_active, remove_active, with_defaults, default_request, Pool,
  PoolConfig, rounds, needed,
}
use emberbox.Sandbox.Pool.Threads.{
  ExecCall, allocates, boots, inserts, allocated, replenishes, refills, adds, executes, dispatches,
  executed, releases, shuts_down, destroys, finished, Thread, Event, arrives, runs, advance,
}
use emberbox.Sandbox.Pool.Alone.{doubled}

abbrev pub count_if : {P : Type 0} → Dec P → ℕ → ℕ
count_if (yes p) n = suc n
count_if (no q) n = n

-- How many steps of goroutine `i` the events hold.
unfoldable pub turns : ℕ → List Event → ℕ
turns i [] = 0
turns i (arrives c ∷ es) = turns i es
turns i (runs j ∷ es) = count_if (ℕ_discrete j i) (turns i es)

module _ (B : Backend) where
  pub rounds-needed : (p : Pool B) → rounds (needed B p) ≡ rounds p.cfg.pool_size - length p.warm
  unfolding needed ◌-ℤ◌
  rounds-needed p = ground arith

  -- A goroutine that has returned.
  unfoldable pub returned : Thread B → Bool
  returned (allocates ctx req) = false
  returned (boots ctx req) = false
  returned (inserts req h) = false
  returned (allocated r) = true
  returned replenishes = false
  returned (refills n) = false
  returned (adds n h) = false
  returned (executes c) = false
  returned (dispatches c a) = false
  returned (executed r) = true
  returned (releases ctx i) = false
  returned (shuts_down ctx) = false
  returned (destroys ctx hs) = false
  returned finished = true

  -- The steps that a goroutine still makes at most. What Shutdown makes depends on the pool that
  -- it finds, so it has a bound only from its critical section on.
  unfoldable pub step_bound : PoolConfig → Thread B → Option ℕ
  step_bound cfg (allocates ctx req) = some 3
  step_bound cfg (boots ctx req) = some 2
  step_bound cfg (inserts req h) = some 1
  step_bound cfg (allocated r) = some 0
  step_bound cfg replenishes = some (suc (suc (doubled (rounds cfg.pool_size))))
  step_bound cfg (refills n) = some (suc (doubled n))
  step_bound cfg (adds n h) = some (suc (suc (doubled n)))
  step_bound cfg (executes c) = some 2
  step_bound cfg (dispatches c a) = some 1
  step_bound cfg (executed r) = some 0
  step_bound cfg (releases ctx i) = some 3
  step_bound cfg (shuts_down ctx) = none
  step_bound cfg (destroys ctx hs) = some (suc (length hs))
  step_bound cfg finished = some 0

  -- `k` steps end the goroutine, at whatever pools and worlds it makes them.
  unfoldable pub Within : PoolConfig → ℕ → Thread B → Type 0
  Within cfg zero th = returned th ≡ true
  Within cfg (suc k) th =
      (p : Pool B) (w : B.World) → p.cfg ≡ cfg → Within cfg k (advance B p w th).thread

  -- A goroutine that has returned stays as it is.
  pub returned_stays :
      (th : Thread B) (p : Pool B) (w : B.World)
      → returned th ≡ true
      → (advance B p w th).thread ≡ th
  unfolding returned advance
  returned_stays (allocates ctx req) p w e = cc
  returned_stays (boots ctx req) p w e = cc
  returned_stays (inserts req h) p w e = cc
  returned_stays (allocated r) p w e = refl
  returned_stays replenishes p w e = cc
  returned_stays (refills n) p w e = cc
  returned_stays (adds n h) p w e = cc
  returned_stays (executes c) p w e = cc
  returned_stays (dispatches c a) p w e = cc
  returned_stays (executed r) p w e = refl
  returned_stays (releases ctx i) p w e = cc
  returned_stays (shuts_down ctx) p w e = cc
  returned_stays (destroys ctx hs) p w e = cc
  returned_stays finished p w e = refl

  returned-Within :
      (cfg : PoolConfig) (k : ℕ) (th : Thread B) → returned th ≡ true → Within cfg k th
  unfolding Within
  returned-Within cfg zero th e = e
  returned-Within cfg (suc k) th e =
      λ p w c. subst (Within cfg k) (sym (returned_stays th p w e)) (returned-Within cfg k th e)

  inserts-Within :
      (cfg : PoolConfig) (req : AllocRequest) (h : B.Handle) → Within cfg 1 (inserts req h)
  unfolding Within advance returned
  inserts-Within cfg req h p w c = refl

  boots-Within :
      (cfg : PoolConfig) (ctx : Context) (req : AllocRequest) → Within cfg 2 (boots ctx req)
  unfolding Within advance returned
  boots-Within cfg ctx req p w c = elim (Result-cases (B.boot ctx req w).0) [
    | inl (h, e) ↦ rw e (inserts-Within cfg req h)
    | inr (x, e) ↦ rw e (returned-Within cfg 1 (allocated (err (wrap boot_prefix x))) refl)
  ]

  allocates-Within :
      (cfg : PoolConfig) (ctx : Context) (req : AllocRequest) → Within cfg 3 (allocates ctx req)
  unfolding Within advance returned
  allocates-Within cfg ctx req p w c =
      elim (Option-cases (take_warm B p (with_defaults p.cfg req))) [
        | inl e ↦ rw e (boots-Within cfg ctx (with_defaults p.cfg req))
        | inr ((h, q), e) ↦ rw e (returned-Within cfg 2 (allocated (ok (B.id h))) refl)
      ]

  dispatches-Within :
      (cfg : PoolConfig) (c : ExecCall) (a : Allocation B) → Within cfg 1 (dispatches c a)
  unfolding Within advance returned
  dispatches-Within cfg c a p w e = refl

  executes-Within : (cfg : PoolConfig) (c : ExecCall) → Within cfg 2 (executes c)
  unfolding Within advance returned
  executes-Within cfg c p w e = elim (Option-cases (find_active B p c.id)) [
    | inl f ↦ rw f (returned-Within cfg 1 (executed (err (not_found c.id))) refl)
    | inr (a, f) ↦ rw f (dispatches-Within cfg c a)
  ]

  destroys-Within :
      (cfg : PoolConfig) (ctx : Context) (hs : List B.Handle)
      → Within cfg (suc (length hs)) (destroys ctx hs)
  unfolding Within advance returned
  destroys-Within cfg ctx [] p w e = refl
  destroys-Within cfg ctx (h ∷ hs) p w e = destroys-Within cfg ctx hs

  releases-Within : (cfg : PoolConfig) (ctx : Context) (i : Text) → Within cfg 3 (releases ctx i)
  unfolding Within advance returned
  releases-Within cfg ctx i p w e = elim (Option-cases (remove_active B p i).0) [
    | inl f ↦ rw f (returned-Within cfg 2 finished refl)
    | inr (a, f) ↦ rw f (destroys-Within cfg ctx (a.handle ∷ []))
  ]

  -- With at most `m` rounds left, `1 + 2m` steps are enough.
  refills-Within : (cfg : PoolConfig) (m n : ℕ) → n ≤ m → Within cfg (suc (doubled m)) (refills n)
  unfolding Within advance returned
  refills-Within cfg m zero le p w e = returned-Within cfg (doubled m) finished refl
  refills-Within cfg zero (suc n) le p w e = absurd (omega (arith, le))
  refills-Within cfg (suc m) (suc n) le p w e =
      let (r, w') = B.boot background (default_request p.cfg) w in
      elim (Result-cases r) [
        | inl (h, f) ↦ rw f (λ p' w'' e'. refills-Within cfg m n (omega (arith, le)))
        | inr (x, f) ↦ rw f (returned-Within cfg (suc (suc (doubled m))) finished refl)
      ]

  adds-Within :
      (cfg : PoolConfig) (n : ℕ) (h : B.Handle) → Within cfg (suc (suc (doubled n))) (adds n h)
  unfolding Within advance
  adds-Within cfg n h p w e = refills-Within cfg n n (omega arith)

  replenishes-Within :
      (cfg : PoolConfig) → Within cfg (suc (suc (doubled (rounds cfg.pool_size)))) replenishes
  unfolding Within advance
  replenishes-Within cfg p w e =
      let missing = rounds-needed p in
      let size = ap (λ (c : PoolConfig). rounds c.pool_size) e in
      refills-Within cfg (rounds cfg.pool_size) (rounds (needed B p)) (omega (arith, missing, size))

  abbrev Bounded : PoolConfig → Thread B → Option ℕ → Type 0
  Bounded cfg th none = Unit
  Bounded cfg th (some n) = Within cfg n th

  step_bound-Bounded : (cfg : PoolConfig) (th : Thread B) → Bounded cfg th (step_bound cfg th)
  unfolding step_bound returned
  step_bound-Bounded cfg (allocates ctx req) = allocates-Within cfg ctx req
  step_bound-Bounded cfg (boots ctx req) = boots-Within cfg ctx req
  step_bound-Bounded cfg (inserts req h) = inserts-Within cfg req h
  step_bound-Bounded cfg (allocated r) = returned-Within cfg 0 (allocated r) refl
  step_bound-Bounded cfg replenishes = replenishes-Within cfg
  step_bound-Bounded cfg (refills n) = refills-Within cfg n n (omega arith)
  step_bound-Bounded cfg (adds n h) = adds-Within cfg n h
  step_bound-Bounded cfg (executes c) = executes-Within cfg c
  step_bound-Bounded cfg (dispatches c a) = dispatches-Within cfg c a
  step_bound-Bounded cfg (executed r) = returned-Within cfg 0 (executed r) refl
  step_bound-Bounded cfg (releases ctx i) = releases-Within cfg ctx i
  step_bound-Bounded cfg (shuts_down ctx) = tt
  step_bound-Bounded cfg (destroys ctx hs) = destroys-Within cfg ctx hs
  step_bound-Bounded cfg finished = returned-Within cfg 0 finished refl

  -- A goroutine with a bound has returned after as many steps.
  pub step_bound-Within :
      (cfg : PoolConfig) (th : Thread B) (n : ℕ) → step_bound cfg th ≡ some n → Within cfg n th
  step_bound-Within cfg th n e = subst (Bounded cfg th) e (step_bound-Bounded cfg th)
