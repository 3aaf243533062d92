-- ===== src/Examples/Audit/Counters.antt =====
-- examples/custombackend/main.go: what the counters of an auditBackend under a pool come to.
use emberbox.Prelude.{
  ℕ, zero, suc, ◌+◌, ◌%◌, ◌^◌, none, some, Option, List, [], ◌∷◌, ◌≡◌, refl, length, length-append,
  get_elem?, arith,
}
use emberbox.Errors.{Result, ok, err}
use emberbox.Context.{Context, background}
use emberbox.Sandbox.{AllocRequest, Backend}
use emberbox.Sandbox.Pool.Sections.{
  add_warm, Pool, PoolConfig, default_request, with_defaults, take_warm, empty_pool, rounds,
}
use emberbox.Sandbox.Pool.Methods.{dispatch, fill, start, warmed}
use emberbox.Sandbox.Pool.Threads.{
  boots, destroys, Thread, Move, System, Event, arrives, runs, advance, absorb_step, step, run,
  after_first, after_boot, after_warm_boot, allocates, inserts, allocated, replenishes, refills,
  adds, executes, dispatches, executed, releases, shuts_down, finished,
}
use emberbox.Sandbox.Pool.Histories.{opened}
use emberbox.Examples.Audit.{fresh, AuditWorld, audit, audited}

-- Execute reaches the backend in the step of a goroutine that dispatches.
abbrev pub exec_steps : {B : Backend} → Thread B → ℕ
exec_steps (dispatches c a) = 1
exec_steps _ = 0

module _ (B : Backend) where
  abbrev exec_steps_at : Option (Thread B) → ℕ
  exec_steps_at none = 0
  exec_steps_at (some t) = exec_steps t

  abbrev exec_steps_of : System B → Event → ℕ
  exec_steps_of s (arrives c) = 0
  exec_steps_of s (runs i) = exec_steps_at (get_elem? s.threads i)

  -- How often a history reaches the backend's Exec.
  unfoldable pub count_execs : System B → List Event → ℕ
  count_execs s [] = 0
  count_execs s (e ∷ es) = exec_steps_of s e + count_execs (step B s e) es

module _ (C : Backend) where
  -- The counters stand at these numbers of calls, as far as 64 bits hold them.
  abbrev CountTo : AuditWorld C → ℕ → ℕ → ℕ → Type 0
  CountTo w b e d = (w.boots ≡ b % 2 ^ 64) × (w.execs ≡ e % 2 ^ 64) × (w.destroys ≡ d % 2 ^ 64)

  abbrev MovesTo : Move (audit C) → ℕ → ℕ → ℕ → Type 0
  MovesTo m b e d = CountTo m.world (length m.booted + b) e (length m.destroyed + d)

  boot-MovesTo :
      (p : Pool (audit C)) (w : AuditWorld C) (req : AllocRequest) (r : Result C.Handle × C.World)
      (b e d : ℕ)
      → CountTo w b e d
      → MovesTo (after_boot (audit C) p (audited C w r).1 req (audited C w r).0) b e d
  boot-MovesTo p w req (ok h, inner) b e d c = omega arith
  boot-MovesTo p w req (err x, inner) b e d c = omega arith

  warm_boot-MovesTo :
      (p : Pool (audit C)) (w : AuditWorld C) (n : ℕ) (r : Result C.Handle × C.World) (b e d : ℕ)
      → CountTo w b e d
      → MovesTo (after_warm_boot (audit C) p (audited C w r).1 n (audited C w r).0) b e d
  warm_boot-MovesTo p w n (ok h, inner) b e d c = omega arith
  warm_boot-MovesTo p w n (err x, inner) b e d c = omega arith

  first-MovesTo :
      (p : Pool (audit C)) (w : AuditWorld C) (ctx : Context) (req : AllocRequest)
      (o : Option ((audit C).Handle × Pool (audit C))) (b e d : ℕ)
      → CountTo w b e d
      → MovesTo (after_first (audit C) p w ctx req o) b e d
  first-MovesTo p w ctx req none b e d c = omega arith
  first-MovesTo p w ctx req (some (h, p')) b e d c = omega arith

  advance-MovesTo :
      (p : Pool (audit C)) (w : AuditWorld C) (t : Thread (audit C)) (b e d : ℕ)
      → CountTo w b e d
      → MovesTo (advance (audit C) p w t) b (exec_steps t + e) d
  unfolding advance dispatch
  advance-MovesTo p w (allocates ctx req) b e d c =
      let full = with_defaults p.cfg req in
      omega (arith, first-MovesTo p w ctx full (take_warm (audit C) p full) b e d c)
  advance-MovesTo p w (boots ctx req) b e d c =
      omega (arith, boot-MovesTo p w req (C.boot ctx req w.inner) b e d c)
  advance-MovesTo p w (inserts req h) b e d c = omega arith
  advance-MovesTo p w (allocated r) b e d c = omega arith
  advance-MovesTo p w replenishes b e d c = omega arith
  advance-MovesTo p w (refills zero) b e d c = omega arith
  advance-MovesTo p w (refills (suc n)) b e d c =
      omega
        (arith, warm_boot-MovesTo p w n (C.boot background (default_request p.cfg) w.inner) b e d c)
  advance-MovesTo p w (adds n h) b e d c = omega arith
  advance-MovesTo p w (executes x) b e d c = omega arith
  advance-MovesTo p w (dispatches x a) b e d c = omega arith
  advance-MovesTo p w (executed r) b e d c = omega arith
  advance-MovesTo p w (releases ctx i) b e d c = omega arith
  advance-MovesTo p w (shuts_down ctx) b e d c = omega arith
  advance-MovesTo p w (destroys ctx []) b e d c = omega arith
  advance-MovesTo p w (destroys ctx (h ∷ hs)) b e d c = omega arith
  advance-MovesTo p w finished b e d c = omega arith

  abbrev pub StandsAt : System (audit C) → ℕ → Type 0
  StandsAt s e = CountTo s.world (length s.booted) e (length s.destroyed)

  absorb_step-StandsAt :
      (s : System (audit C)) (i : ℕ) (o : Option (Thread (audit C))) (e : ℕ)
      → StandsAt s e
      → StandsAt (absorb_step (audit C) s i o) (exec_steps_at (audit C) o + e)
  absorb_step-StandsAt s i none e c = omega arith
  absorb_step-StandsAt s i (some t) e c =
      let m = advance (audit C) s.pool s.world t in
      rw (length-append m.booted s.booted, length-append m.destroyed s.destroyed)
        (advance-MovesTo s.pool s.world t (length s.booted) e (length s.destroyed) c)

  step-StandsAt :
      (s : System (audit C)) (x : Event) (e : ℕ)
      → StandsAt s e
      → StandsAt (step (audit C) s x) (exec_steps_of (audit C) s x + e)
  unfolding step
  step-StandsAt s (arrives call) e c = omega arith
  step-StandsAt s (runs i) e c = absorb_step-StandsAt s i (get_elem? s.threads i) e c

  run-StandsAt :
      (s : System (audit C)) (es : List Event) (e : ℕ)
      → StandsAt s e
      → StandsAt (run (audit C) s es) (count_execs (audit C) s es + e)
  unfolding run count_execs
  run-StandsAt s [] e c = omega arith
  run-StandsAt s (x ∷ es) e c = omega (
    arith,
    run-StandsAt (step (audit C) s x) es (exec_steps_of (audit C) s x + e) (step-StandsAt s x e c),
  )

  boot_warm-CountTo :
      (p : Pool (audit C)) (w : AuditWorld C) (r : Result C.Handle × C.World)
      → CountTo w (length p.warm) 0 0
      → CountTo (audited C w r).1 (length (warmed (audit C) p (audited C w r).0).warm) 0 0
  unfolding add_warm
  boot_warm-CountTo p w (ok h, inner) c = omega arith
  boot_warm-CountTo p w (err x, inner) c = c

  fill-CountTo :
      (n : ℕ) (p : Pool (audit C)) (w : AuditWorld C)
      → CountTo w (length p.warm) 0 0
      → CountTo (fill (audit C) n p w).1 (length (fill (audit C) n p w).0.warm) 0 0
  unfolding fill
  fill-CountTo zero p w c = c
  fill-CountTo (suc n) p w c =
      let r = C.boot background (default_request p.cfg) w.inner in
      fill-CountTo n (warmed (audit C) p (audited C w r).0) (audited C w r).1
        (boot_warm-CountTo p w r c)

  -- The history of a pool over a fresh auditBackend, from New on.
  pub opened-run-StandsAt :
      (cfg : PoolConfig) (w : C.World) (es : List Event)
      → StandsAt
          (run (audit C) (opened (audit C) cfg (fresh C w)) es)
          (count_execs (audit C) (opened (audit C) cfg (fresh C w)) es)
  unfolding opened start empty_pool
  opened-run-StandsAt cfg w es = omega (
    arith,
    run-StandsAt (opened (audit C) cfg (fresh C w)) es 0 (
        fill-CountTo (rounds cfg.pool_size) (empty_pool (audit C) cfg) (fresh C w)
          (refl, refl, refl)),
  )
