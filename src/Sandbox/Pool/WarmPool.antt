-- ===== src/Sandbox/Pool/WarmPool.antt =====
-- The size of the warm pool of sandbox/sandbox.go: what New and one replenishing goroutine reach,
-- and what two of them do to it.
pub mod Pairs
use emberbox.Sandbox.Pool.Progress.Interleaved.{goroutine_returns}
use emberbox.Sandbox.Pool.Progress.{rounds-needed, returned, turns, step_bound}
use mathlib.Core.Option.{some-injective}
use Prim.Native.Nat.{max}
use emberbox.Prelude.{
  true, All, replicate, ap, ◌∙◌, inr, inl, ℕ, zero, suc, ◌+◌, ◌-◌, ◌≤◌, ◌≡◌, ◌≢◌, refl, sym, some,
  List, [], ◌∷◌, arith, get_elem?, length,
}
use emberbox.Errors.{Result-cases}
use emberbox.Context.{background}
use emberbox.Sandbox.{Backend}
use emberbox.Sandbox.Pool.Sections.{
  Pool, PoolConfig, rounds, needed, default_request, add_warm, empty_pool,
}
use emberbox.Sandbox.Pool.Methods.{refill, replenish_warm_pool, fill, start}
use emberbox.Sandbox.Pool.Threads.{
  Thread, finished, replenishes, refills, System, Event, runs, step, run, advance,
}
use emberbox.Sandbox.Pool.Alone.{doubled, Stands, replenish_alone, entry_self, entry_ne, step_of}
use Pairs.{AlwaysBoots, OnlyRuns, owed, refilling, returned-owed, Pair, run-Pair}

module _ (B : Backend) where
  refill_le :
      (n : ℕ) (p : Pool B) (w : B.World)
      → (length (refill B n p w).0.warm ≤ length p.warm + n)
        × ((refill B n p w).0.active ≡ p.active)
  unfolding refill add_warm
  refill_le zero p w = (omega arith, refl)
  refill_le (suc n) p w =
      let (r, w') = B.boot background (default_request p.cfg) w in
      elim (Result-cases r) [
        | inl (h, e) ↦ ground (arith, refill_le n (add_warm B p h) w')
        | inr (x, e) ↦ ground arith
      ]

  replenish_le :
      (p : Pool B) (w : B.World)
      → let q = (replenish_warm_pool B p w).0 in
        (length q.warm ≤ max (length p.warm) (rounds p.cfg.pool_size)) × (q.active ≡ p.active)
  unfolding replenish_warm_pool
  replenish_le p w =
      let (size, kept) = refill_le (rounds (needed B p)) p w in
      (omega (arith, size, rounds-needed B p), kept)

  -- A replenishing goroutine that runs with no other in between ends, with the pool and the world
  -- that replenishWarmPool leaves: the warm pool is not past PoolSize (nor past the size that it
  -- had), and the active sandboxes are as they were.
  replenish_lem :
      (s : System B) (i : ℕ)
      → get_elem? s.threads i ≡ some replenishes
      → let n = suc (suc (doubled (rounds (needed B s.pool)))) in
        let (p, w) = replenish_warm_pool B s.pool s.world in
        Stands B (run B s (replicate n (runs i))) i finished p w
        × (length p.warm ≤ max (length s.pool.warm) (rounds s.pool.cfg.pool_size))
        × (p.active ≡ s.pool.active)
  replenish_lem s i e =
      let (size, kept) = replenish_le s.pool s.world in (replenish_alone B s i e, size, kept)

  refill_eq :
      AlwaysBoots B
      → (n : ℕ) (p : Pool B) (w : B.World) → length (refill B n p w).0.warm ≡ length p.warm + n
  unfolding refill add_warm
  refill_eq succeeds zero p w = omega arith
  refill_eq succeeds (suc n) p w =
      let (h, e) = succeeds background (default_request p.cfg) w in
      ground (
        arith,
        refill_eq succeeds n (add_warm B p h) (B.boot background (default_request p.cfg) w).1,
      )

  -- If Boot never fails, replenishWarmPool fills the warm pool up to PoolSize.
  replenish_eq :
      (p : Pool B) (w : B.World)
      → AlwaysBoots B
      → length (replenish_warm_pool B p w).0.warm ≡ max (length p.warm) (rounds p.cfg.pool_size)
  unfolding replenish_warm_pool
  replenish_eq p w succeeds =
      omega (arith, refill_eq succeeds (rounds (needed B p)) p w, rounds-needed B p)

  read_step :
      (s : System B) (i : ℕ)
      → get_elem? s.threads i ≡ some replenishes
      → let t = step B s (runs i) in
        (get_elem? t.threads i ≡ some (refills (rounds (needed B s.pool)))) × (t.pool ≡ s.pool)
  unfolding advance
  read_step s i e = rw (step_of B s i replenishes e) ((entry_self B s i replenishes _ e, refl))

  read_other :
      (s : System B) (i j : ℕ)
      → i ≢ j
      → get_elem? s.threads i ≡ some replenishes
      → get_elem? (step B s (runs i)).threads j ≡ get_elem? s.threads j
  unfolding advance
  read_other s i j d e = rw (step_of B s i replenishes e) (entry_ne B s i j _ d)

  both_read :
      (s : System B) (i j : ℕ)
      → i ≢ j
      → get_elem? s.threads i ≡ some replenishes
      → get_elem? s.threads j ≡ some replenishes
      → let k = rounds (needed B s.pool) in
        let t = step B (step B s (runs i)) (runs j) in
        (get_elem? t.threads i ≡ some (refills k))
        × (get_elem? t.threads j ≡ some (refills k))
        × (t.pool ≡ s.pool)
  both_read s i j d e f =
      let t = step B s (runs i) in
      let (now, same) = read_step s i e in
      let still = read_other s i j d e ∙ f in
      let (then_, same') = read_step t j still in
      (
        read_other t j i (λ q. d (sym q)) still ∙ now,
        then_ ∙ ap (λ q. some (refills (rounds (needed B q)))) same,
        same' ∙ same,
      )

  -- A goroutine of the pair that has had its turns owes nothing.
  paid :
      (s : System B) (es : List Event) (i n : ℕ) (th : Thread B)
      → get_elem? s.threads i ≡ some (refills n)
      → suc (doubled n) ≤ turns i es
      → get_elem? (run B s es).threads i ≡ some th
      → refilling B th ≡ true
      → owed B th ≡ 0
  unfolding step_bound
  paid s es i n th e often now still =
      let (last, found, over) =
        goroutine_returns B s es i (refills n) (suc (doubled n)) e refl often in
      returned-owed B th still (ap (returned B) (some-injective th last (sym now ∙ found)) ∙ over)

  -- Two replenishing goroutines read the size of the warm pool, which is not past PoolSize, one
  -- after the other and before either boots. If Boot never fails, and no other goroutine makes a
  -- step while the two make all of theirs, in whatever order these alternate, the warm pool ends as
  -- far above PoolSize as it was below.
  pub overfill :
      (s : System B) (i j : ℕ) (es : List Event)
      → AlwaysBoots B
      → i ≢ j
      → get_elem? s.threads i ≡ some replenishes
      → get_elem? s.threads j ≡ some replenishes
      → length s.pool.warm ≤ rounds s.pool.cfg.pool_size
      → All (OnlyRuns i j) es
      → suc (doubled (rounds s.pool.cfg.pool_size - length s.pool.warm)) ≤ turns i es
      → suc (doubled (rounds s.pool.cfg.pool_size - length s.pool.warm)) ≤ turns j es
      → length (run B s (runs i ∷ runs j ∷ es)).pool.warm
        ≡ rounds s.pool.cfg.pool_size + (rounds s.pool.cfg.pool_size - length s.pool.warm)
  unfolding run
  overfill s i j es succeeds d e f below only often often' =
      let k = rounds s.pool.cfg.pool_size - length s.pool.warm in
      let t = step B (step B s (runs i)) (runs j) in
      let (one, other, same) = rw (rounds-needed B s.pool) at (both_read s i j d e f) in
      let size = ap (λ (q : Pool B). length q.warm) same in
      let start : Pair B t i j (length s.pool.warm + k + k) = record {
        one = refills k;
        other = refills k;
        one_entry = one;
        other_entry = other;
        one_refilling = refl;
        other_refilling = refl;
        sum = omega (arith, size);
      } in
      let v = run-Pair B es t i j (length s.pool.warm + k + k) succeeds d only start in
      let settled = paid t es i k v.one one often v.one_entry v.one_refilling in
      let settled' = paid t es j k v.other other often' v.other_entry v.other_refilling in
      omega (arith, v.sum, settled, settled')

  fill_le :
      (n : ℕ) (p : Pool B) (w : B.World)
      → (length (fill B n p w).0.warm ≤ length p.warm + n) × ((fill B n p w).0.active ≡ p.active)
  unfolding fill add_warm
  fill_le zero p w = (omega arith, refl)
  fill_le (suc n) p w =
      let (r, w') = B.boot background (default_request p.cfg) w in
      elim (Result-cases r) [
        | inl (h, e) ↦ ground (arith, fill_le n (add_warm B p h) w')
        | inr (x, e) ↦ ground (arith, fill_le n p w')
      ]

  -- New leaves at most PoolSize warm sandboxes and no active one, also when some boots fail.
  pub start_le :
      (cfg : PoolConfig) (w : B.World)
      → let p = (start B cfg w).0 in (length p.warm ≤ rounds cfg.pool_size) × (p.active ≡ [])
  unfolding start empty_pool
  start_le cfg w = ground (arith, fill_le (rounds cfg.pool_size) (empty_pool B cfg) w)
