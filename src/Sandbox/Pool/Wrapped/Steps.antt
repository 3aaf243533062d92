-- ===== src/Sandbox/Pool/Wrapped/Steps.antt =====
-- The pool of sandbox/sandbox.go over a wrapping backend, under concurrent calls: one step of a
-- goroutine.
use emberbox.Prelude.{
  ℕ, zero, suc, Option, none, some, List, [], ◌∷◌, ◌≡◌, refl, inl, inr, Option-cases,
}
use emberbox.Errors.{Result, ok, err, map_result}
use emberbox.Context.{Context, background}
use emberbox.Sandbox.{Backend, AllocRequest}
use emberbox.Sandbox.Wrapping.{Wraps}
use emberbox.Sandbox.Pool.Sections.{
  Allocation, Pool, with_defaults, default_request, take_warm, find_active, remove_active,
}
use emberbox.Sandbox.Pool.Methods.{exec_context, dispatch}
use emberbox.Sandbox.Pool.Threads.{
  boots, destroys, allocates, inserts, allocated, replenishes, refills, adds, executes, dispatches,
  executed, releases, shuts_down, finished, releases, executed, dispatches, executes, adds, refills,
  allocated, inserts, allocates, Thread, Move, ExecCall, advance, after_first, after_boot,
  after_warm_boot,
}
use emberbox.Sandbox.Pool.Wrapped.{
  wrap_allocation, wrap_all, wrap_pool, wrap_taken, insert_active-wrap, take_warm-wrap,
  find_active-wrap, remove_active-wrap, take_all-wrap, needed-wrap, add_warm-wrap,
}

module _ {A C : Backend} (m : Wraps A C) where
  abbrev pub wrap_thread : Thread C → Thread A
  wrap_thread (allocates ctx req) = allocates ctx req
  wrap_thread (boots ctx req) = boots ctx req
  wrap_thread (inserts req h) = inserts req (m.outer h)
  wrap_thread (allocated r) = allocated r
  wrap_thread replenishes = replenishes
  wrap_thread (refills n) = refills n
  wrap_thread (adds n h) = adds n (m.outer h)
  wrap_thread (executes c) = executes c
  wrap_thread (dispatches c a) = dispatches c (wrap_allocation m a)
  wrap_thread (executed r) = executed r
  wrap_thread (releases ctx i) = releases ctx i
  wrap_thread (shuts_down ctx) = shuts_down ctx
  wrap_thread (destroys ctx hs) = destroys ctx (wrap_all m hs)
  wrap_thread finished = finished

  abbrev pub wrap_threads : List (Thread C) → List (Thread A)
  wrap_threads [] = []
  wrap_threads (t ∷ ts) = wrap_thread t ∷ wrap_threads ts

  abbrev pub wrap_move : Move C → A.World → Move A
  wrap_move c w = record {
    thread = wrap_thread c.thread;
    pool = wrap_pool m c.pool;
    world = w;
    spawned = wrap_threads c.spawned;
    booted = wrap_all m c.booted;
    destroyed = wrap_all m c.destroyed;
  }

  -- One step on each side leaves the same, up to the wrapping.
  abbrev pub Alike : Move A → Move C → Type 0
  Alike a c = (a ≡ wrap_move c a.world) × (m.inside a.world ≡ c.world)

  after_first-Alike :
      (p : Pool C) (w : A.World) (ctx : Context) (req : AllocRequest)
      (o : Option (C.Handle × Pool C))
      → Alike
          (after_first A (wrap_pool m p) w ctx req (wrap_taken m o))
          (after_first C p (m.inside w) ctx req o)
  after_first-Alike p w ctx req none = (refl, refl)
  after_first-Alike p w ctx req (some (h, p')) = (rw (m.outer_id h) refl, refl)

  after_boot-Alike :
      (p : Pool C) (w : A.World) (req : AllocRequest) (r : Result C.Handle)
      → Alike
          (after_boot A (wrap_pool m p) w req (map_result m.outer r))
          (after_boot C p (m.inside w) req r)
  after_boot-Alike p w req (ok h) = (refl, refl)
  after_boot-Alike p w req (err e) = (refl, refl)

  after_warm_boot-Alike :
      (p : Pool C) (w : A.World) (n : ℕ) (r : Result C.Handle)
      → Alike
          (after_warm_boot A (wrap_pool m p) w n (map_result m.outer r))
          (after_warm_boot C p (m.inside w) n r)
  after_warm_boot-Alike p w n (ok h) = (refl, refl)
  after_warm_boot-Alike p w n (err e) = (refl, refl)

  -- The backend's part of Execute returns the same on both sides.
  dispatch-wrap :
      (c : ExecCall) (a : Allocation C) (w : A.World)
      → ((dispatch A c.ctx c.now c.elapsed (wrap_allocation m a) c.tool c.input w).0
          ≡ (dispatch C c.ctx c.now c.elapsed a c.tool c.input (m.inside w)).0)
        × (m.inside (dispatch A c.ctx c.now c.elapsed (wrap_allocation m a) c.tool c.input w).1
            ≡ (dispatch C c.ctx c.now c.elapsed a c.tool c.input (m.inside w)).1)
  unfolding dispatch
  dispatch-wrap c a w =
      let ctx = exec_context C c.ctx c.now a in
      (
        rw (m.outer_exec ctx a.handle c.tool c.input w) refl,
        m.inside_exec ctx a.handle c.tool c.input w,
      )

  pub advance-Alike :
      (p : Pool C) (w : A.World) (t : Thread C)
      → Alike (advance A (wrap_pool m p) w (wrap_thread t)) (advance C p (m.inside w) t)
  unfolding advance
  advance-Alike p w (allocates ctx req) = rw (take_warm-wrap m p (with_defaults p.cfg req)) (
      after_first-Alike p w ctx (with_defaults p.cfg req) (take_warm C p (with_defaults p.cfg req)))
  advance-Alike p w (boots ctx req) =
      rw (m.outer_boot ctx req w, ← m.inside_boot ctx req w)
        (after_boot-Alike p (A.boot ctx req w).1 req (C.boot ctx req (m.inside w)).0)
  advance-Alike p w (inserts req h) = (rw (insert_active-wrap m p req h, m.outer_id h) refl, refl)
  advance-Alike p w (allocated r) = (refl, refl)
  advance-Alike p w replenishes = (rw (needed-wrap m p) refl, refl)
  advance-Alike p w (refills zero) = (refl, refl)
  advance-Alike p w (refills (suc n)) =
      rw
        (
          m.outer_boot background (default_request p.cfg) w,
          ← m.inside_boot background (default_request p.cfg) w,
        )
        (after_warm_boot-Alike p (A.boot background (default_request p.cfg) w).1 n
          (C.boot background (default_request p.cfg) (m.inside w)).0)
  advance-Alike p w (adds n h) = (rw (add_warm-wrap m p h) refl, refl)
  advance-Alike p w (executes c) = elim (Option-cases (find_active C p c.id)) [
    | inl none_there ↦ (rw (find_active-wrap m p c.id, none_there) refl, refl)
    | inr (a, there) ↦ (rw (find_active-wrap m p c.id, there) refl, refl)
  ]
  advance-Alike p w (dispatches c a) =
      let (seen, left) = dispatch-wrap c a w in (rw seen refl, left)
  advance-Alike p w (executed r) = (refl, refl)
  advance-Alike p w (releases ctx i) = elim (Option-cases (remove_active C p i).0) [
    | inl none_there ↦ (rw (remove_active-wrap m p i, none_there) refl, refl)
    | inr (a, there) ↦ (rw (remove_active-wrap m p i, there) refl, refl)
  ]
  advance-Alike p w (shuts_down ctx) = (rw (take_all-wrap m p) refl, refl)
  advance-Alike p w (destroys ctx []) = (refl, refl)
  advance-Alike p w (destroys ctx (h ∷ hs)) = (refl, m.inside_destroy ctx h w)
  advance-Alike p w finished = (refl, refl)
