-- ===== src/Sandbox/Pool/Alone.antt =====
-- A goroutine of sandbox/sandbox.go that runs with no other in between makes the call of
-- Pool/Methods.antt.
use mathlib.Core.Path.{subst}
use emberbox.Prelude.{
  get_elem?-set_ne, append-nil, ◌≢◌, get_elem?-append_end, inr, inl, ℕ, zero, suc, ◌≡◌, refl, Text,
  some, List, [], ◌∷◌, ◌++◌, arith, get_elem?, set, replicate, get_elem?-set_self,
  get_elem?-append_left, length,
}
use emberbox.Errors.{Result-cases}
use emberbox.Context.{Context, background}
use emberbox.Sandbox.{Backend, AllocRequest}
use emberbox.Sandbox.Pool.Sections.{Pool, rounds, take_all, needed, default_request, add_warm}
use emberbox.Sandbox.Pool.Methods.{
  allocate, execute, release, shutdown, destroy_all, refill, replenish_warm_pool,
}
use emberbox.Sandbox.Pool.Threads.{
  destroys, shutdown_call, release_call, execute_call, arrives, begin, allocate_call, Call, Thread,
  allocates, allocated, replenishes, refills, executes, executed, releases, shuts_down, finished,
  Move, advance, System, runs, step, run, absorb, ExecCall,
}

-- Two steps for each round.
abbrev pub doubled : ℕ → ℕ
doubled zero = zero
doubled (suc n) = suc (suc (doubled n))

module _ (B : Backend) where
  -- Where goroutine `i` of a system stands, with the pool and the backend's world.
  pub record Stands (s : System B) (i : ℕ) (th : Thread B) (p : Pool B) (w : B.World) : Type 0 where
    pub thread : get_elem? s.threads i ≡ some th
    pub pool : s.pool ≡ p
    pub world : s.world ≡ w

  abbrev StandsAt : System B → ℕ → Thread B × Pool B × B.World → Type 0
  StandsAt s i (th, p, w) = Stands s i th p w

  pub step_of :
      (s : System B) (i : ℕ) (th : Thread B)
      → get_elem? s.threads i ≡ some th
      → step B s (runs i) ≡ absorb B s i (advance B s.pool s.world th)
  unfolding step
  step_of s i th e = rw (e, step)

  -- A step that starts no goroutine changes one entry.
  pub entry_self :
      (s : System B) (i : ℕ) (th new : Thread B)
      → get_elem? s.threads i ≡ some th
      → get_elem? (set s.threads i new ++ []) i ≡ some new
  entry_self s i th new e = rw append-nil (get_elem?-set_self s.threads i th new e)

  pub entry_ne :
      (s : System B) (i j : ℕ) (new : Thread B)
      → i ≢ j
      → get_elem? (set s.threads i new ++ []) j ≡ get_elem? s.threads j
  entry_ne s i j new d = rw append-nil (get_elem?-set_ne s.threads new d)

  absorb-Stands :
      (s : System B) (i : ℕ) (th : Thread B) (m : Move B)
      → get_elem? s.threads i ≡ some th
      → Stands (absorb B s i m) i m.thread m.pool m.world
  absorb-Stands s i th m e = record {
    thread =
        get_elem?-append_left (set s.threads i m.thread) m.spawned i m.thread
          (get_elem?-set_self s.threads i th m.thread e);
    pool = refl;
    world = refl;
  }

  step-Stands :
      (s : System B) (i : ℕ) (th : Thread B) (p : Pool B) (w : B.World)
      → Stands s i th p w
      → let m = advance B p w th in Stands (step B s (runs i)) i m.thread m.pool m.world
  step-Stands s i th p w v =
      rw (← v.pool, ← v.world, step_of s i th v.thread)
        (absorb-Stands s i th (advance B s.pool s.world th) v.thread)

  -- `k` steps of one goroutine.
  alone : ℕ → Thread B → Pool B → B.World → Thread B × Pool B × B.World
  alone zero th p w = (th, p, w)
  alone (suc k) th p w = let m = advance B p w th in alone k m.thread m.pool m.world

  run-alone :
      (k : ℕ) (s : System B) (i : ℕ) (th : Thread B) (p : Pool B) (w : B.World)
      → Stands s i th p w
      → let (th', p', w') = alone k th p w in Stands (run B s (replicate k (runs i))) i th' p' w'
  unfolding run alone
  run-alone zero s i th p w v = v
  run-alone (suc k) s i th p w v =
      run-alone k (step B s (runs i)) i _ _ _ (step-Stands s i th p w v)

  allocate_steps :
      (p : Pool B) (ctx : Context) (req : AllocRequest) (w : B.World)
      → let o = allocate B p ctx req w in
        alone 3 (allocates ctx req) p w ≡ (allocated o.result, o.pool, o.world)
  unfolding alone advance allocate
  allocate_steps p ctx req w = ground arith

  execute_steps :
      (p : Pool B) (c : ExecCall) (w : B.World)
      → let o = execute B p c.ctx c.now c.elapsed c.id c.tool c.input w in
        alone 2 (executes c) p w ≡ (executed o.0, p, o.1)
  unfolding alone advance execute
  execute_steps p c w = ground arith

  release_steps :
      (p : Pool B) (ctx : Context) (i : Text) (w : B.World)
      → let (p', w') = release B p ctx i w in alone 3 (releases ctx i) p w ≡ (finished, p', w')
  unfolding alone advance release
  release_steps p ctx i w = ground arith

  destroy_steps :
      (hs : List B.Handle) (p : Pool B) (ctx : Context) (w : B.World)
      → alone (suc (length hs)) (destroys ctx hs) p w ≡ (finished, p, destroy_all B ctx hs w)
  unfolding alone advance destroy_all
  destroy_steps [] p ctx w = refl
  destroy_steps (h ∷ hs) p ctx w = destroy_steps hs p ctx (B.destroy ctx h w).1

  shutdown_steps :
      (p : Pool B) (ctx : Context) (w : B.World)
      → let (p', w') = shutdown B p ctx w in
        alone (suc (suc (length (take_all B p).0))) (shuts_down ctx) p w ≡ (finished, p', w')
  unfolding alone advance shutdown
  shutdown_steps p ctx w = let (hs, p') = take_all B p in destroy_steps hs p' ctx w

  finished_steps : (k : ℕ) (p : Pool B) (w : B.World) → alone k finished p w ≡ (finished, p, w)
  unfolding alone advance
  finished_steps zero p w = refl
  finished_steps (suc k) p w = finished_steps k p w

  refill_steps :
      (n : ℕ) (p : Pool B) (w : B.World)
      → let (p', w') = refill B n p w in
        alone (suc (doubled n)) (refills n) p w ≡ (finished, p', w')
  unfolding alone advance refill
  refill_steps zero p w = refl
  refill_steps (suc n) p w =
      let (r, w') = B.boot background (default_request p.cfg) w in
      elim (Result-cases r) [
        | inl (h, e) ↦ ground (arith, refill_steps n (add_warm B p h) w')
        | inr (x, e) ↦ ground (arith, finished_steps (suc (doubled n)) p w')
      ]

  replenish_steps :
      (p : Pool B) (w : B.World)
      → let (p', w') = replenish_warm_pool B p w in
        alone (suc (suc (doubled (rounds (needed B p))))) replenishes p w ≡ (finished, p', w')
  unfolding alone advance replenish_warm_pool
  replenish_steps p w = refill_steps (rounds (needed B p)) p w

  -- What a call returns and leaves if it is made by Pool/Methods.antt.
  abbrev pub sequential : Pool B → B.World → Call → Thread B × Pool B × B.World
  sequential p w (allocate_call ctx req) =
      let o = allocate B p ctx req w in (allocated o.result, o.pool, o.world)
  sequential p w (execute_call c) =
      let o = execute B p c.ctx c.now c.elapsed c.id c.tool c.input w in (executed o.0, p, o.1)
  sequential p w (release_call ctx i) = let (p', w') = release B p ctx i w in (finished, p', w')
  sequential p w (shutdown_call ctx) = let (p', w') = shutdown B p ctx w in (finished, p', w')

  -- The steps that a call takes: Shutdown makes one for each sandbox.
  abbrev pub steps : Pool B → Call → ℕ
  steps p (allocate_call ctx req) = 3
  steps p (execute_call c) = 2
  steps p (release_call ctx i) = 3
  steps p (shutdown_call ctx) = suc (suc (length (take_all B p).0))

  call_steps :
      (p : Pool B) (w : B.World) (c : Call) → alone (steps p c) (begin B c) p w ≡ sequential p w c
  call_steps p w (allocate_call ctx req) = allocate_steps p ctx req w
  call_steps p w (execute_call c) = execute_steps p c w
  call_steps p w (release_call ctx i) = release_steps p ctx i w
  call_steps p w (shutdown_call ctx) = shutdown_steps p ctx w

  arrived-Stands :
      (s : System B) (c : Call)
      → Stands (step B s (arrives c)) (length s.threads) (begin B c) s.pool s.world
  unfolding step
  arrived-Stands s c = record {
    thread = get_elem?-append_end s.threads (begin B c);
    pool = refl;
    world = refl;
  }

  -- A call that no other goroutine interrupts ends after `steps` steps, with the result of the
  -- sequential method and the pool and the backend as that leaves them.
  pub call_alone :
      (s : System B) (c : Call)
      → let t = run B s (arrives c ∷ replicate (steps s.pool c) (runs (length s.threads))) in
        let (th, p, w) = sequential s.pool s.world c in Stands t (length s.threads) th p w
  unfolding run
  call_alone s c =
      rw (← call_steps s.pool s.world c) (run-alone (steps s.pool c) _ _ _ _ _ (arrived-Stands s c))

  pub replenish_alone :
      (s : System B) (i : ℕ)
      → get_elem? s.threads i ≡ some replenishes
      → let n = suc (suc (doubled (rounds (needed B s.pool)))) in
        let (p, w) = replenish_warm_pool B s.pool s.world in
        Stands (run B s (replicate n (runs i))) i finished p w
  replenish_alone s i e = subst (StandsAt (run B s _) i) (replenish_steps s.pool s.world) (
      run-alone (suc (suc (doubled (rounds (needed B s.pool))))) s i replenishes s.pool s.world
        (record { thread = e; pool = refl; world = refl }))
