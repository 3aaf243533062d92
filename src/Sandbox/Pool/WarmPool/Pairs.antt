-- ===== src/Sandbox/Pool/WarmPool/Pairs.antt =====
-- Two replenishing goroutines of sandbox/sandbox.go that take turns.
use emberbox.Sandbox.Pool.Progress.{returned}
use mathlib.Core.Path.{subst}
use emberbox.Prelude.{
  Bool, true, false, set, All, ◌⊎◌, get_elem?-set_self, get_elem?-set_ne, get_elem?-append_left,
  ◌∙◌, inr, inl, ℕ, zero, suc, ◌+◌, ◌≡◌, ◌≢◌, refl, sym, some, List, [], ◌∷◌, arith, get_elem?,
  length,
}
use emberbox.Errors.{ok}
use emberbox.Context.{Context, background}
use emberbox.Sandbox.{Backend, AllocRequest}
use emberbox.Sandbox.Pool.Sections.{Pool, default_request, add_warm}
use emberbox.Sandbox.Pool.Threads.{
  Thread, arrives, allocates, boots, inserts, allocated, executes, dispatches, executed, releases,
  shuts_down, destroys, begin, finished, replenishes, refills, adds, System, Event, runs, step, run,
  advance,
}
use emberbox.Sandbox.Pool.Alone.{step_of}

-- No step of another goroutine than `i` and `j`; calls may arrive.
abbrev pub OnlyRuns : ℕ → ℕ → Event → Type 0
OnlyRuns i j (arrives c) = Unit
OnlyRuns i j (runs k) = (k ≡ i) ⊎ (k ≡ j)

module _ (B : Backend) where
  -- Boot never fails.
  abbrev pub AlwaysBoots : Type 0
  AlwaysBoots =
      (c : Context) (r : AllocRequest) (w : B.World) → (h : B.Handle) × ((B.boot c r w).0 ≡ ok h)

  -- The sandboxes that a replenishing goroutine is still to add, if every Boot succeeds.
  abbrev pub owed : Thread B → ℕ
  owed (refills n) = n
  owed (adds n h) = suc n
  owed _ = 0

  abbrev pub refilling : Thread B → Bool
  refilling (refills n) = true
  refilling (adds n h) = true
  refilling finished = true
  refilling _ = false

  -- A step of such a goroutine leaves it one, and what is warm or to be added the same.
  pub refilling-advance :
      (p : Pool B) (w : B.World) (th : Thread B)
      → AlwaysBoots
      → refilling th ≡ true
      → let m = advance B p w th in
        (refilling m.thread ≡ true) × (length m.pool.warm + owed m.thread ≡ length p.warm + owed th)
  unfolding advance add_warm
  refilling-advance p w (refills zero) succeeds e = (refl, refl)
  refilling-advance p w (refills (suc n)) succeeds e =
      let (h, f) = succeeds background (default_request p.cfg) w in rw f (refl, refl)
  refilling-advance p w (adds n h) succeeds e = (refl, omega arith)
  refilling-advance p w finished succeeds e = (refl, refl)
  refilling-advance p w (allocates ctx req) succeeds e = cc
  refilling-advance p w (boots ctx req) succeeds e = cc
  refilling-advance p w (inserts req h) succeeds e = cc
  refilling-advance p w (allocated r) succeeds e = cc
  refilling-advance p w replenishes succeeds e = cc
  refilling-advance p w (executes c) succeeds e = cc
  refilling-advance p w (dispatches c a) succeeds e = cc
  refilling-advance p w (executed r) succeeds e = cc
  refilling-advance p w (releases ctx i) succeeds e = cc
  refilling-advance p w (shuts_down ctx) succeeds e = cc
  refilling-advance p w (destroys ctx hs) succeeds e = cc

  pub returned-owed : (th : Thread B) → refilling th ≡ true → returned B th ≡ true → owed th ≡ 0
  unfolding returned
  returned-owed (refills n) e f = cc
  returned-owed (adds n h) e f = cc
  returned-owed _ e f = refl

  -- Two replenishing goroutines, and how many sandboxes are warm or still to be added by them.
  pub record Pair (s : System B) (i j total : ℕ) : Type 0 where
    pub one : Thread B
    pub other : Thread B
    pub one_entry : get_elem? s.threads i ≡ some one
    pub other_entry : get_elem? s.threads j ≡ some other
    pub one_refilling : refilling one ≡ true
    pub other_refilling : refilling other ≡ true
    pub sum : length s.pool.warm + owed one + owed other ≡ total

  swap : {s : System B} {i j total : ℕ} → Pair s i j total → Pair s j i total
  swap v = record {
    one = v.other;
    other = v.one;
    one_entry = v.other_entry;
    other_entry = v.one_entry;
    one_refilling = v.other_refilling;
    other_refilling = v.one_refilling;
    sum = omega (arith, v.sum);
  }

  step-Pair :
      (s : System B) (i j total : ℕ)
      → AlwaysBoots
      → i ≢ j
      → Pair s i j total
      → Pair (step B s (runs i)) i j total
  step-Pair s i j total succeeds d v =
      let m = advance B s.pool s.world v.one in
      let (still, kept) = refilling-advance s.pool s.world v.one succeeds v.one_refilling in
      rw (step_of B s i v.one v.one_entry) (record {
        one = m.thread;
        other = v.other;
        one_entry =
            get_elem?-append_left (set s.threads i m.thread) m.spawned i m.thread
              (get_elem?-set_self s.threads i v.one m.thread v.one_entry);
        other_entry =
            get_elem?-append_left (set s.threads i m.thread) m.spawned j v.other
              (get_elem?-set_ne s.threads m.thread d ∙ v.other_entry);
        one_refilling = still;
        other_refilling = v.other_refilling;
        sum = omega (arith, kept, v.sum);
      })

  pub run-Pair :
      (es : List Event) (s : System B) (i j total : ℕ)
      → AlwaysBoots
      → i ≢ j
      → All (OnlyRuns i j) es
      → Pair s i j total
      → Pair (run B s es) i j total
  unfolding run step
  run-Pair [] s i j total succeeds d only v = v
  run-Pair (arrives c ∷ es) s i j total succeeds d (_, only) v =
      run-Pair es (step B s (arrives c)) i j total succeeds d only (record {
        one = v.one;
        other = v.other;
        one_entry = get_elem?-append_left s.threads (begin B c ∷ []) i v.one v.one_entry;
        other_entry = get_elem?-append_left s.threads (begin B c ∷ []) j v.other v.other_entry;
        one_refilling = v.one_refilling;
        other_refilling = v.other_refilling;
        sum = v.sum;
      })
  run-Pair (runs k ∷ es) s i j total succeeds d (inl same, only) v =
      run-Pair es (step B s (runs k)) i j total succeeds d only (
        subst (λ x. Pair (step B s (runs x)) i j total) (sym same)
          (step-Pair s i j total succeeds d v))
  run-Pair (runs k ∷ es) s i j total succeeds d (inr same, only) v =
      run-Pair es (step B s (runs k)) i j total succeeds d only (
        subst (λ x. Pair (step B s (runs x)) i j total) (sym same)
          (swap (step-Pair s j i total succeeds (λ q. d (sym q)) (swap v))))
