-- ===== src/Sandbox/Pool/Lifecycle/Forward.antt =====
-- sandbox/sandbox.go: the stages that a sandbox goes through in a history.
use emberbox.Sandbox.Pool.Lifecycle.Steps.{
  new-le, count_new-set, count_new-append, count_threads_parts, last_stage-le,
}
use emberbox.Prelude.{
  ℕ, ◌+◌, ◌≤◌, ◌≡◌, inl, inr, Text, some, List, [], ◌∷◌, arith, get_elem?, set, Option-cases,
}
use emberbox.Sandbox.{Backend, IssuesFreshIds}
use emberbox.Sandbox.Pool.Sections.{PoolConfig}
use emberbox.Sandbox.Pool.Threads.{
  Thread, System, Event, arrives, runs, advance, absorb, begin, step, run,
}
use emberbox.Sandbox.Pool.Histories.{opened, opened-Inv}
use emberbox.Sandbox.Pool.Ownership.{count_places, Inv, step-Inv, run-Inv, held-le-threads}
use emberbox.Sandbox.Pool.Ownership.Counts.{count, count_active, count-append}
use emberbox.Sandbox.Pool.Ownership.Steps.{advance-IsBalanced, count_all}
use emberbox.Sandbox.Pool.Targets.Histories.{
  count_doomed-append, count_doomed, count_removed, removed-absorb,
}
use emberbox.Sandbox.Pool.Lifecycle.{count_new, stage, order}

module _ (B : Backend) where
  -- At each stage, no fewer are at it or past it.
  record IsForward (t : Text) (s s' : System B) : Type 0 where
    booted : count_places B t s ≤ count_places B t s'
    stored :
        count B t s.pool.warm + count_active B t s.pool.active + count_removed B t s
        ≤ count B t s'.pool.warm + count_active B t s'.pool.active + count_removed B t s'
    used :
        count_active B t s.pool.active + count_removed B t s
        ≤ count_active B t s'.pool.active + count_removed B t s'
    removed : count_removed B t s ≤ count_removed B t s'
    destroyed : count B t s.destroyed ≤ count B t s'.destroyed

  stage-le :
      (t : Text) (s s' : System B) → IsForward t s s' → order (stage B t s) ≤ order (stage B t s')
  unfolding stage
  stage-le t s s' f =
      last_stage-le (count B t s.destroyed) (count_doomed B t s.threads)
        (count_active B t s.pool.active) (count B t s.pool.warm) (count_new B t s.threads)
        (count B t s'.destroyed) (count_doomed B t s'.threads) (count_active B t s'.pool.active)
        (count B t s'.pool.warm) (count_new B t s'.threads) f.destroyed (omega (arith, f.removed))
        (omega (arith, f.used)) (omega (arith, f.stored))
        (omega
          (arith, f.booted, count_threads_parts B t s.threads, count_threads_parts B t s'.threads))

  same-IsForward : (t : Text) (s : System B) → IsForward t s s
  same-IsForward t s = record {
    booted = omega arith;
    stored = omega arith;
    used = omega arith;
    removed = omega arith;
    destroyed = omega arith;
  }

  then-IsForward :
      (t : Text) (a b c : System B) → IsForward t a b → IsForward t b c → IsForward t a c
  then-IsForward t a b c f g = record {
    booted = omega (arith, f.booted, g.booted);
    stored = omega (arith, f.stored, g.stored);
    used = omega (arith, f.used, g.used);
    removed = omega (arith, f.removed, g.removed);
    destroyed = omega (arith, f.destroyed, g.destroyed);
  }

module _ (B : Backend) (L : IssuesFreshIds B) where
  moved-IsForward :
      (t : Text) (s : System B) (i : ℕ) (th : Thread B)
      → Inv B L s
      → Inv B L (absorb B s i (advance B s.pool s.world th))
      → get_elem? s.threads i ≡ some th
      → IsForward B t s (absorb B s i (advance B s.pool s.world th))
  moved-IsForward t s i th v v' e =
      let m = advance B s.pool s.world th in
      let s' = absorb B s i m in
      let one : (x : Text) → count_all B x s.pool th ≤ 1 =
        λ x. omega (arith, v.placed x, v.once x, held-le-threads B x s.threads i th e) in
      let (_, _, none_spawned) = advance-IsBalanced B t s.pool s.world th v.sound one in
      let (few_new, few_early) = new-le B t s.pool s.world th in
      let changed = count_new-set B t s.threads i th m.thread e in
      let appended = count_new-append B t (set s.threads i m.thread) m.spawned in
      let spawned = count_threads_parts B t m.spawned in
      let all = count-append B t m.booted s.booted in
      let parts = count_threads_parts B t s.threads in
      let parts' = count_threads_parts B t s'.threads in
      record {
        booted = omega (arith, v.placed t, v'.placed t, all);
        stored = omega (
          arith,
          v.placed t,
          v'.placed t,
          all,
          parts,
          parts',
          few_new,
          changed,
          appended,
          spawned,
          none_spawned,
        );
        used = omega (
          arith,
          v.placed t,
          v'.placed t,
          all,
          parts,
          parts',
          few_early,
          changed,
          appended,
          spawned,
          none_spawned,
        );
        removed = (removed-absorb B t s i th e).0;
        destroyed = omega (arith, count-append B t m.destroyed s.destroyed);
      }

  step-IsForward :
      (t : Text) (s : System B) (e : Event)
      → Inv B L s
      → Inv B L (step B s e)
      → IsForward B t s (step B s e)
  unfolding step
  step-IsForward t s (arrives c) v v' =
      let kept : count_removed B t s ≤ count_removed B t (step B s (arrives c)) =
        omega (arith, count_doomed-append B t s.threads (begin B c ∷ [])) in
      record {
        booted = omega (arith, v.placed t, v'.placed t);
        stored = omega (arith, kept);
        used = omega (arith, kept);
        removed = kept;
        destroyed = omega arith;
      }
  step-IsForward t s (runs i) v v' = elim (Option-cases (get_elem? s.threads i)) [
    | inl e ↦ rw e (same-IsForward B t s)
    | inr (th, e) ↦ rw e (moved-IsForward t s i th v (rw e at v') e)
  ]

  run-IsForward :
      (t : Text) (s : System B) (es : List Event) → Inv B L s → IsForward B t s (run B s es)
  unfolding run
  run-IsForward t s [] v = same-IsForward B t s
  run-IsForward t s (e ∷ es) v =
      let v' = step-Inv B L s e v in
      then-IsForward B t s (step B s e) (run B (step B s e) es) (step-IsForward t s e v v')
        (run-IsForward t (step B s e) es v')

  -- After any history, and then any further calls and steps in any interleaving, the sandbox with an
  -- identity is at the same stage of its life or at a later one, in the order: booted by a
  -- goroutine, warm, active, taken out to be destroyed, destroyed.
  pub stage-forward :
      (cfg : PoolConfig) (w : B.World) (es later : List Event) (t : Text)
      → let s = run B (opened B cfg w) es in order (stage B t s) ≤ order (stage B t (run B s later))
  stage-forward cfg w es later t =
      let s = run B (opened B cfg w) es in
      stage-le B t s (run B s later)
        (run-IsForward t s later (run-Inv B L (opened B cfg w) es (opened-Inv B L cfg w)))
