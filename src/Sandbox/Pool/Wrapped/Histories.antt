-- ===== src/Sandbox/Pool/Wrapped/Histories.antt =====
-- The pool of sandbox/sandbox.go over a wrapping backend, from New through any history.
use mathlib.Core.Path.{subst}
use mathlib.Core.Option
use emberbox.Prelude.{
  ℕ, zero, suc, Option, none, some, List, [], ◌∷◌, ◌++◌, ◌≡◌, refl, get_elem?, set, ◌∙◌, ap,
}
use emberbox.Errors.{Result, ok, err, map_result}
use emberbox.Context.{background}
use emberbox.Sandbox.{Backend}
use emberbox.Sandbox.Wrapping.{Wraps}
use emberbox.Sandbox.Pool.Sections.{empty_pool, Pool, PoolConfig, default_request, rounds}
use emberbox.Sandbox.Pool.Threads.{
  absorb_step, Call, allocate_call, execute_call, release_call, shutdown_call, arrives, runs,
  Thread, Move, System, Event, advance, absorb, step, run, begin,
}
use emberbox.Sandbox.Pool.Wrapped.{wrap_all, wrap_pool, wrap_all-append, add_warm-wrap}
use emberbox.Sandbox.Pool.Wrapped.Steps.{wrap_threads, wrap_thread, wrap_move, advance-Alike, Alike}
use emberbox.Sandbox.Pool.Methods.{fill, start, warmed}
use emberbox.Sandbox.Pool.Histories.{opened}

module _ {A C : Backend} (m : Wraps A C) where
  get_elem?-wrap_threads :
      (ts : List (Thread C)) (i : ℕ)
      → get_elem? (wrap_threads m ts) i ≡ Option.map (wrap_thread m) (get_elem? ts i)
  get_elem?-wrap_threads [] i = refl
  get_elem?-wrap_threads (t ∷ ts) zero = refl
  get_elem?-wrap_threads (t ∷ ts) (suc i) = get_elem?-wrap_threads ts i

  set-wrap_threads :
      (ts : List (Thread C)) (i : ℕ) (t : Thread C)
      → set (wrap_threads m ts) i (wrap_thread m t) ≡ wrap_threads m (set ts i t)
  set-wrap_threads [] i t = refl
  set-wrap_threads (u ∷ ts) zero t = refl
  set-wrap_threads (u ∷ ts) (suc i) t = rw (set-wrap_threads ts i t) refl

  wrap_threads-append :
      (ts us : List (Thread C)) → wrap_threads m (ts ++ us) ≡ wrap_threads m ts ++ wrap_threads m us
  wrap_threads-append [] us = refl
  wrap_threads-append (t ∷ ts) us = rw (wrap_threads-append ts us) refl

  abbrev pub wrap_system : System C → A.World → System A
  wrap_system s w = record {
    pool = wrap_pool m s.pool;
    world = w;
    threads = wrap_threads m s.threads;
    booted = wrap_all m s.booted;
    destroyed = wrap_all m s.destroyed;
  }

  -- The system over the wrapping backend is the one over the inner backend, up to the wrapping.
  abbrev pub AreAlike : System A → System C → Type 0
  AreAlike a c = (a ≡ wrap_system c a.world) × (m.inside a.world ≡ c.world)

  begin-wrap : (c : Call) → wrap_thread m (begin C c) ≡ begin A c
  begin-wrap (allocate_call ctx req) = refl
  begin-wrap (execute_call c) = refl
  begin-wrap (release_call ctx i) = refl
  begin-wrap (shutdown_call ctx) = refl

  absorb-wrap_move :
      (s : System C) (w v : A.World) (i : ℕ) (c : Move C)
      → absorb A (wrap_system s w) i (wrap_move m c v) ≡ wrap_system (absorb C s i c) v
  absorb-wrap_move s w v i c =
      rw
        (
          set-wrap_threads s.threads i c.thread,
          wrap_threads-append (set s.threads i c.thread) c.spawned,
          wrap_all-append m c.booted s.booted,
          wrap_all-append m c.destroyed s.destroyed,
        )
        refl

  absorb-wrap :
      (s : System C) (w : A.World) (i : ℕ) (a : Move A) (c : Move C)
      → Alike m a c
      → AreAlike (absorb A (wrap_system s w) i a) (absorb C s i c)
  absorb-wrap s w i a c (same, left) =
      (ap (absorb A (wrap_system s w) i) same ∙ absorb-wrap_move s w a.world i c, left)

  -- The goroutine that the scheduler chose, if there is one with that number.
  runs-AreAlike :
      (s : System C) (w : A.World) (i : ℕ) (o : Option (Thread C))
      → m.inside w ≡ s.world
      → AreAlike
          (absorb_step A (wrap_system s w) i (Option.map (wrap_thread m) o))
          (absorb_step C s i o)
  runs-AreAlike s w i none at_ = (refl, at_)
  runs-AreAlike s w i (some t) at_ = absorb-wrap s w i _ _ (
      subst
        (λ v. Alike m (advance A (wrap_pool m s.pool) w (wrap_thread m t)) (advance C s.pool v t))
        at_ (advance-Alike m s.pool w t))

  step-AreAlike :
      (s : System C) (w : A.World) (e : Event)
      → m.inside w ≡ s.world
      → AreAlike (step A (wrap_system s w) e) (step C s e)
  unfolding step
  step-AreAlike s w (arrives c) at_ =
      (rw (wrap_threads-append s.threads (begin C c ∷ []), begin-wrap c) refl, at_)
  step-AreAlike s w (runs i) at_ =
      rw (get_elem?-wrap_threads s.threads i) (runs-AreAlike s w i (get_elem? s.threads i) at_)

  pub run-AreAlike :
      (a : System A) (s : System C) (es : List Event)
      → AreAlike a s
      → AreAlike (run A a es) (run C s es)
  unfolding run
  run-AreAlike a s [] v = v
  run-AreAlike a s (e ∷ es) (same, at_) =
      run-AreAlike (step A a e) (step C s e) es (rw same (step-AreAlike s a.world e at_))

  warmed-wrap :
      (p : Pool C) (r : Result C.Handle)
      → warmed A (wrap_pool m p) (map_result m.outer r) ≡ wrap_pool m (warmed C p r)
  warmed-wrap p (ok h) = add_warm-wrap m p h
  warmed-wrap p (err e) = refl

  fill-wrap :
      (n : ℕ) (p : Pool C) (w : A.World)
      → ((fill A n (wrap_pool m p) w).0 ≡ wrap_pool m (fill C n p (m.inside w)).0)
        × (m.inside (fill A n (wrap_pool m p) w).1 ≡ (fill C n p (m.inside w)).1)
  unfolding fill
  fill-wrap zero p w = (refl, refl)
  fill-wrap (suc n) p w =
      let req = default_request p.cfg in
      let r = (C.boot background req (m.inside w)).0 in
      let seen = m.outer_boot background req w in
      let left = m.inside_boot background req w in
      let (pools, worlds) = fill-wrap n (warmed C p r) (A.boot background req w).1 in
      (
        rw (fill, seen, warmed-wrap p r, ← left) pools,
        rw (fill, seen, warmed-wrap p r, ← left) worlds,
      )

  -- New over either backend.
  pub opened-AreAlike :
      (cfg : PoolConfig) (w : A.World) → AreAlike (opened A cfg w) (opened C cfg (m.inside w))
  unfolding opened start empty_pool
  opened-AreAlike cfg w =
      let (same, left) = fill-wrap (rounds cfg.pool_size) (empty_pool C cfg) w in
      (rw same refl, left)
