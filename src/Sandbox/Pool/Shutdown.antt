-- ===== src/Sandbox/Pool/Shutdown.antt =====
-- Shutdown of sandbox/sandbox.go: alone it destroys every sandbox; a goroutine that is replenishing
-- the warm pool meanwhile keeps one alive.
use emberbox.Prelude.Tally.{hit_self}
use emberbox.Prelude.{
  get_elem?-append_left, get_elem?-lt, ◌≢◌, get_elem?-append_end, ap, ℕ, suc, ◌+◌, ◌≤◌, ◌≡◌, refl,
  sym, ◌∙◌, Text, some, List, [], ◌∷◌, ◌++◌, arith, get_elem?, length, replicate,
}
use emberbox.Context.{Context}
use emberbox.Sandbox.{Backend, IssuesFreshIds}
use emberbox.Sandbox.Pool.Sections.{Pool, take_all, handles, rev_onto, add_warm}
use emberbox.Sandbox.Pool.Threads.{
  destroys, adds, refills, shuts_down, System, arrives, runs, shutdown_call, step, run, advance,
}
use emberbox.Sandbox.Pool.Alone.{entry_ne, entry_self, step_of}
use emberbox.Sandbox.Pool.Ownership.{held-le-threads, Inv}
use emberbox.Sandbox.Pool.Ownership.Counts.{
  count, count-cons, count-append, count_active, count-rev_onto, count-nil,
}
use emberbox.Sandbox.Pool.Ownership.Steps.{count_threads}

module _ (B : Backend) where
  -- What Shutdown takes is all that was warm or active.
  count-take_all :
      (t : Text) (p : Pool B)
      → count B t (take_all B p).0 ≡ count_active B t p.active + count B t p.warm
  unfolding take_all
  count-take_all t p = omega (
    arith,
    count-append B t (handles B p.active) (rev_onto B p.warm []),
    count-rev_onto B t p.warm [],
    count-nil B t,
  )

  -- Goroutine `i` is destroying `hs`, of a pool `p`.
  record Destroying (s : System B) (i : ℕ) (ctx : Context) (hs : List B.Handle) (p : Pool B)
      : Type 0 where
    thread : get_elem? s.threads i ≡ some (destroys ctx hs)
    pool : s.pool ≡ p

  destroy_step :
      (s : System B) (i : ℕ) (ctx : Context) (h : B.Handle) (hs : List B.Handle) (p : Pool B)
      → Destroying s i ctx (h ∷ hs) p
      → let t = step B s (runs i) in
        Destroying t i ctx hs p × (t.destroyed ≡ h ∷ s.destroyed) × (t.booted ≡ s.booted)
  unfolding advance
  destroy_step s i ctx h hs p v = rw (step_of B s i (destroys ctx (h ∷ hs)) v.thread) (
      (
        record { thread = entry_self B s i _ (destroys ctx hs) v.thread; pool = v.pool },
        refl,
        refl,
      ))

  destroy_steps :
      (hs : List B.Handle) (s : System B) (i : ℕ) (ctx : Context) (p : Pool B) (x : Text)
      → Destroying s i ctx hs p
      → let t = run B s (replicate (length hs) (runs i)) in
        (t.pool ≡ p)
        × (count B x t.destroyed ≡ count B x hs + count B x s.destroyed)
        × (count B x t.booted ≡ count B x s.booted)
  unfolding run
  destroy_steps [] s i ctx p x v = (v.pool, omega (arith, count-nil B x), refl)
  destroy_steps (h ∷ hs) s i ctx p x v =
      let (v', gone, same) = destroy_step s i ctx h hs p v in
      let (pool, counted, booted) = destroy_steps hs (step B s (runs i)) i ctx p x v' in
      (
        pool,
        omega (
          arith,
          counted,
          ap (count B x) gone,
          count-cons B x h hs,
          count-cons B x h s.destroyed,
        ),
        booted ∙ ap (count B x) same,
      )

  taken_step :
      (s : System B) (i : ℕ) (ctx : Context)
      → get_elem? s.threads i ≡ some (shuts_down ctx)
      → let t = step B s (runs i) in
        Destroying t i ctx (take_all B s.pool).0 (take_all B s.pool).1
        × (t.destroyed ≡ s.destroyed)
        × (t.booted ≡ s.booted)
  unfolding advance
  taken_step s i ctx e = rw (step_of B s i (shuts_down ctx) e) (
      (
        record { thread = entry_self B s i _ (destroys ctx (take_all B s.pool).0) e; pool = refl },
        refl,
        refl,
      ))

  taken_other :
      (s : System B) (k i : ℕ) (ctx : Context)
      → k ≢ i
      → get_elem? s.threads k ≡ some (shuts_down ctx)
      → get_elem? (step B s (runs k)).threads i ≡ get_elem? s.threads i
  unfolding advance
  taken_other s k i ctx d e =
      rw (step_of B s k (shuts_down ctx) e)
        (entry_ne B s k i (destroys ctx (take_all B s.pool).0) d)

  add_step :
      (s : System B) (i n : ℕ) (h : B.Handle)
      → get_elem? s.threads i ≡ some (adds n h)
      → let t = step B s (runs i) in (t.pool.warm ≡ h ∷ s.pool.warm) × (t.destroyed ≡ s.destroyed)
  unfolding advance add_warm
  add_step s i n h e = rw (step_of B s i (adds n h) e) ((refl, refl))

  add_other :
      (s : System B) (i k n : ℕ) (h : B.Handle)
      → i ≢ k
      → get_elem? s.threads i ≡ some (adds n h)
      → get_elem? (step B s (runs i)).threads k ≡ get_elem? s.threads k
  unfolding advance
  add_other s i k n h d e = rw (step_of B s i (adds n h) e) (entry_ne B s i k (refills n) d)

  emptied : (p : Pool B) → ((take_all B p).1.warm ≡ []) × ((take_all B p).1.active ≡ [])
  unfolding take_all
  emptied p = (refl, refl)

module _ (B : Backend) (L : IssuesFreshIds B) where
  drained_count :
      (s : System B) (x : Text)
      → Inv B L s
      → count_threads B x s.threads ≡ 0
      → (after before : ℕ) → after ≡ count B x (take_all B s.pool).0 + before
      → before ≡ count B x s.destroyed
      → after ≡ count B x s.booted
  drained_count s x v quiet after before counted same =
      omega (arith, v.placed x, count-take_all B x s.pool)

  -- Shutdown, run alone on a system in which no goroutine holds a sandbox: the pool is empty
  -- afterwards, and each sandbox that was ever booted has been destroyed exactly once.
  pub shutdown_drains :
      (s : System B) (ctx : Context) (x : Text)
      → Inv B L s
      → ((y : Text) → count_threads B y s.threads ≡ 0)
      → let n = suc (length (take_all B s.pool).0) in
        let t = run B s (arrives (shutdown_call ctx) ∷ replicate n (runs (length s.threads))) in
        (t.pool.warm ≡ [])
        × (t.pool.active ≡ [])
        × (count B x t.destroyed ≡ count B x s.booted)
        × (count B x t.destroyed ≤ 1)
  unfolding run step
  shutdown_drains s ctx x v quiet =
      let s' : System B = record s { threads = s.threads ++ shuts_down ctx ∷ [] } in
      let i = length s.threads in
      let (d, gone, _) = taken_step B s' i ctx (get_elem?-append_end s.threads (shuts_down ctx)) in
      let (hs, p) = take_all B s.pool in
      let (pool, counted, _) = destroy_steps B hs (step B s' (runs i)) i ctx p x d in
      let total = drained_count s x v (quiet x) _ _ counted (ap (count B x) gone) in
      (
        ap (λ (q : Pool B). q.warm) pool ∙ (emptied B s.pool).0,
        ap (λ (q : Pool B). q.active) pool ∙ (emptied B s.pool).1,
        total,
        omega (arith, total, v.once x),
      )

  -- The identity that a goroutine is about to add is nowhere else.
  adding_alone :
      (s : System B) (i n : ℕ) (h : B.Handle)
      → Inv B L s
      → get_elem? s.threads i ≡ some (adds n h)
      → (count B (B.id h) (take_all B s.pool).0 ≡ 0) × (count B (B.id h) s.destroyed ≡ 0)
  adding_alone s i n h v e =
      let x = B.id h in
      let here : 1 ≤ count_threads B x s.threads =
        omega
          (arith, held-le-threads B x s.threads i (adds n h) e, count-cons B x h [], hit_self x) in
      (
        omega (arith, here, v.placed x, v.once x, count-take_all B x s.pool),
        omega (arith, here, v.placed x, v.once x),
      )

  -- A sandbox that a replenishing goroutine has booted, and not yet appended, when Shutdown takes
  -- the pool's sandboxes: it is appended to the warm pool of the pool that was shut down, and
  -- Shutdown does not destroy it.
  pub shutdown_misses :
      (s : System B) (ctx : Context) (i n : ℕ) (h : B.Handle)
      → Inv B L s
      → get_elem? s.threads i ≡ some (adds n h)
      → let k = length s.threads in
        let t = run B s (arrives (shutdown_call ctx) ∷ runs k ∷ runs i ∷ []) in
        (t.pool.warm ≡ h ∷ [])
        × (get_elem? t.threads k ≡ some (destroys ctx (take_all B s.pool).0))
        × (count B (B.id h) (take_all B s.pool).0 ≡ 0)
        × (count B (B.id h) t.destroyed ≡ 0)
  unfolding run step
  shutdown_misses s ctx i n h v e =
      let s' : System B = record s { threads = s.threads ++ shuts_down ctx ∷ [] } in
      let k = length s.threads in
      let t : System B = step B s' (runs k) in
      let (d, gone, _) = taken_step B s' k ctx (get_elem?-append_end s.threads (shuts_down ctx)) in
      let apart : k ≢ i = λ q. absurd (omega (arith, q, get_elem?-lt s.threads i (adds n h) e)) in
      let ready : get_elem? t.threads i ≡ some (adds n h) =
        taken_other B s' k i ctx apart (get_elem?-append_end s.threads (shuts_down ctx))
        ∙ get_elem?-append_left s.threads (shuts_down ctx ∷ []) i (adds n h) e in
      let (warm, kept) = add_step B t i n h ready in
      let (untaken, alive) = adding_alone s i n h v e in
      (
        warm ∙ ap (◌∷◌ h) (ap (λ (q : Pool B). q.warm) d.pool ∙ (emptied B s.pool).0),
        add_other B t i k n h (λ q. apart (sym q)) ready ∙ d.thread,
        untaken,
        ap (count B (B.id h)) (kept ∙ gone) ∙ alive,
      )
