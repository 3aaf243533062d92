-- ===== src/Examples/Audit/Transparency.antt =====
-- examples/custombackend/main.go: the pool over an auditBackend, beside the pool over its inner
-- backend.
use emberbox.Prelude.{ap, ◌∙◌, ℕ, ◌%◌, ◌^◌, List, ◌≡◌, length}
use emberbox.Sandbox.{Backend}
use emberbox.Sandbox.Pool.Sections.{PoolConfig}
use emberbox.Sandbox.Pool.Threads.{System, Event, run}
use emberbox.Sandbox.Pool.Histories.{opened}
use emberbox.Sandbox.Pool.Wrapped.{length-wrap_all}
use emberbox.Sandbox.Pool.Wrapped.Histories.{wrap_system, run-AreAlike, opened-AreAlike}
use emberbox.Examples.Audit.{audit, audit_Wraps, fresh}
use emberbox.Examples.Audit.Counters.{count_execs, opened-run-StandsAt}

module _ (C : Backend) where
  -- `a` is `c` with each handle wrapped, and the counters of `a` hold the numbers of calls.
  abbrev pub IsAudited : ℕ → System (audit C) → System C → Type 0
  IsAudited execs a c =
      (a ≡ wrap_system (audit_Wraps C) c a.world)
      × (a.world.inner ≡ c.world)
      × (a.world.boots ≡ length c.booted % 2 ^ 64)
      × (a.world.execs ≡ execs % 2 ^ 64)
      × (a.world.destroys ≡ length c.destroyed % 2 ^ 64)

  -- Whatever the calls and their interleaving, a pool over a new auditBackend goes through the
  -- states of the pool over its inner backend: the same results of the calls, the same warm and
  -- active sandboxes up to the wrapping of their handles, and the same state of the inner backend.
  -- The counters hold, modulo 2^64, how many sandboxes Boot returned, how often a goroutine
  -- reached the backend's Exec, and how many sandboxes Destroy was called on.
  pub run-IsAudited :
      (cfg : PoolConfig) (w : C.World) (es : List Event)
      → IsAudited
          (count_execs (audit C) (opened (audit C) cfg (fresh C w)) es)
          (run (audit C) (opened (audit C) cfg (fresh C w)) es)
          (run C (opened C cfg w) es)
  run-IsAudited cfg w es =
      let m = audit_Wraps C in
      let s = opened (audit C) cfg (fresh C w) in
      let (same, left) = run-AreAlike m s (opened C cfg w) es (opened-AreAlike m cfg (fresh C w)) in
      let (booted, execs, destroyed) = opened-run-StandsAt C cfg w es in
      (
        same,
        left,
        booted
            ∙ ap (λ n. n % 2 ^ 64)
                (ap (λ x. length x.booted) same
                  ∙ length-wrap_all m (run C (opened C cfg w) es).booted),
        execs,
        destroyed
            ∙ ap (λ n. n % 2 ^ 64)
                (ap (λ x. length x.destroyed) same
                  ∙ length-wrap_all m (run C (opened C cfg w) es).destroyed),
      )
