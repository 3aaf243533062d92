-- ===== src/Sandbox/Pool/Progress/Interleaved.antt =====
-- The goroutines of sandbox/sandbox.go: one of them between the steps of the others.
use mathlib.Core.Path.{subst}
use native.Mathlib.Decide.{ℕ_discrete}
use emberbox.Prelude.{
  ℕ, zero, suc, some, List, [], ◌∷◌, true, ◌≡◌, ◌≢◌, ◌≤◌, ◌∙◌, refl, sym, arith, ap, inl, inr,
  get_elem?, set, get_elem?-set_self, get_elem?-set_ne, get_elem?-append_left, Option-cases,
}
use emberbox.Sandbox.{Backend}
use emberbox.Sandbox.Pool.Sections.{
  pop_warm, insert_active, add_warm, take_all, Pool, PoolConfig, take_warm, remove_active,
}
use emberbox.Sandbox.Pool.Threads.{
  allocates, boots, inserts, allocated, replenishes, refills, adds, executes, dispatches, executed,
  releases, shuts_down, destroys, finished, Thread, System, Event, arrives, runs, advance, step,
  run, begin,
}
use emberbox.Sandbox.Pool.Alone.{step_of}
use emberbox.Sandbox.Pool.Progress.{
  count_if, returned_stays, turns, returned, step_bound, Within, step_bound-Within,
}

abbrev one_less : ℕ → ℕ
one_less zero = zero
one_less (suc k) = k

one_less_le : (k n : ℕ) → k ≤ suc n → one_less k ≤ n
one_less_le zero n h = omega arith
one_less_le (suc k) n h = omega (arith, h)

count_if_yes : {P : Type 0} (d : Dec P) (n : ℕ) → P → count_if d n ≡ suc n
count_if_yes (yes p) n q = refl
count_if_yes (no r) n q = absurd (r q)

count_if_no : {P : Type 0} (d : Dec P) (n : ℕ) → ¬ P → count_if d n ≡ n
count_if_no (yes p) n q = absurd (q p)
count_if_no (no r) n q = refl

module _ (B : Backend) where
  -- No step changes the configuration.
  advance-cfg : (p : Pool B) (w : B.World) (th : Thread B) → (advance B p w th).pool.cfg ≡ p.cfg
  unfolding advance take_warm pop_warm insert_active remove_active add_warm take_all
  advance-cfg p w (allocates ctx req) = ground arith
  advance-cfg p w (boots ctx req) = ground arith
  advance-cfg p w (inserts req h) = refl
  advance-cfg p w (allocated r) = refl
  advance-cfg p w replenishes = refl
  advance-cfg p w (refills zero) = refl
  advance-cfg p w (refills (suc n)) = ground arith
  advance-cfg p w (adds n h) = refl
  advance-cfg p w (executes c) = refl
  advance-cfg p w (dispatches c a) = refl
  advance-cfg p w (executed r) = refl
  advance-cfg p w (releases ctx i) = ground arith
  advance-cfg p w (shuts_down ctx) = refl
  advance-cfg p w (destroys ctx []) = refl
  advance-cfg p w (destroys ctx (h ∷ hs)) = refl
  advance-cfg p w finished = refl

  -- Goroutine `i` is within `k` steps of its end.
  record Reaches (cfg : PoolConfig) (s : System B) (i k : ℕ) : Type 0 where
    thread : Thread B
    entry : get_elem? s.threads i ≡ some thread
    within : Within B cfg k thread
    config : s.pool.cfg ≡ cfg

  -- One step nearer, if any was left.
  Within-advance :
      (cfg : PoolConfig) (k : ℕ) (th : Thread B) (p : Pool B) (w : B.World)
      → p.cfg ≡ cfg
      → Within B cfg k th
      → Within B cfg (one_less k) (advance B p w th).thread
  unfolding Within
  Within-advance cfg zero th p w c v = ap (returned B) (returned_stays B th p w v) ∙ v
  Within-advance cfg (suc k) th p w c v = v p w c

  step-Reaches_self :
      (cfg : PoolConfig) (s : System B) (i k : ℕ)
      → Reaches cfg s i k
      → Reaches cfg (step B s (runs i)) i (one_less k)
  step-Reaches_self cfg s i k v =
      let m = advance B s.pool s.world v.thread in
      rw (step_of B s i v.thread v.entry) (record {
        thread = m.thread;
        entry =
            get_elem?-append_left (set s.threads i m.thread) m.spawned i m.thread
              (get_elem?-set_self s.threads i v.thread m.thread v.entry);
        within = Within-advance cfg k v.thread s.pool s.world v.config v.within;
        config = advance-cfg s.pool s.world v.thread ∙ v.config;
      })

  step-Reaches_other :
      (cfg : PoolConfig) (s : System B) (i j k : ℕ)
      → j ≢ i
      → Reaches cfg s i k
      → Reaches cfg (step B s (runs j)) i k
  unfolding step
  step-Reaches_other cfg s i j k d v = elim (Option-cases (get_elem? s.threads j)) [
    | inl e ↦ rw e v
    | inr (th, e) ↦
        let m = advance B s.pool s.world th in
        rw e (record {
          thread = v.thread;
          entry =
              get_elem?-append_left (set s.threads j m.thread) m.spawned i v.thread
                (get_elem?-set_ne s.threads m.thread d ∙ v.entry);
          within = v.within;
          config = advance-cfg s.pool s.world th ∙ v.config;
        })
  ]

  -- After `k` turns of goroutine `i`, whatever the others do in between.
  run-Reaches :
      (cfg : PoolConfig) (es : List Event) (s : System B) (i k : ℕ)
      → k ≤ turns i es
      → Reaches cfg s i k
      → Reaches cfg (run B s es) i 0
  unfolding run turns step
  run-Reaches cfg [] s i k le v = subst (Reaches cfg s i) (omega (arith, le)) v
  run-Reaches cfg (arrives c ∷ es) s i k le v = run-Reaches cfg es _ i k le (record {
    thread = v.thread;
    entry = get_elem?-append_left s.threads (begin B c ∷ []) i v.thread v.entry;
    within = v.within;
    config = v.config;
  })
  run-Reaches cfg (runs j ∷ es) s i k le v = elim (ℕ_discrete j i) [
    | yes e ↦
        let nearer : k ≤ suc (turns i es) =
          omega (arith, le, count_if_yes (ℕ_discrete j i) (turns i es) e) in
        run-Reaches cfg es _ i (one_less k) (one_less_le k (turns i es) nearer) (
          subst (λ x. Reaches cfg (step B s (runs x)) i (one_less k)) (sym e)
            (step-Reaches_self cfg s i k v))
    | no d ↦
        run-Reaches cfg es _ i k (omega (arith, le, count_if_no (ℕ_discrete j i) (turns i es) d))
          (step-Reaches_other cfg s i j k d v)
  ]

  -- Under every interleaving, a goroutine that has a bound has returned once it has made that many
  -- steps of its own.
  pub goroutine_returns :
      (s : System B) (es : List Event) (i : ℕ) (th : Thread B) (n : ℕ)
      → get_elem? s.threads i ≡ some th
      → step_bound B s.pool.cfg th ≡ some n
      → n ≤ turns i es
      → (end : Thread B) × (get_elem? (run B s es).threads i ≡ some end) × (returned B end ≡ true)
  unfolding Within
  goroutine_returns s es i th n e b le =
      let v = run-Reaches s.pool.cfg es s i n le (record {
        thread = th;
        entry = e;
        within = step_bound-Within B s.pool.cfg th n b;
        config = refl;
      }) in
      (v.thread, v.entry, v.within)
