-- ===== src/Sandbox/Pool/Histories.antt =====
-- What holds of a pool of sandbox/sandbox.go after any history: New, then any calls by any number
-- of clients, in any interleaving.
use emberbox.Prelude.Tally.{hit, hit_self}
use emberbox.Prelude.{ap, ℕ, zero, suc, ◌≤◌, ◌≡◌, refl, Text, some, List, [], arith}
use emberbox.Prelude.Dict
use emberbox.Errors.{err, Result, ok}
use emberbox.Context.{background}
use emberbox.Sandbox.{Backend, IssuesFreshIds}
use emberbox.Sandbox.Pool.Sections.{
  Allocation, Pool, PoolConfig, rounds, empty_pool, add_warm, default_request, handles,
}
use emberbox.Sandbox.Pool.Methods.{warmed, start, fill}
use emberbox.Sandbox.Pool.Threads.{System, Event, run}
use emberbox.Sandbox.Pool.Ownership.{
  count_places, Inv, run-Inv, booted_once, booted_issued, uncounted,
}
use emberbox.Sandbox.Pool.Ownership.Counts.{
  count-erase, lookup_keyed, count, count-nil, count-cons, count_active,
}
use emberbox.Sandbox.Pool.Ownership.Steps.{count_threads}

module _ (B : Backend) where
  -- A system with a pool, and no call yet.
  abbrev pub idle : Pool B × B.World → System B
  idle (p, w) = record { pool = p; world = w; threads = []; booted = p.warm; destroyed = [] }

  -- The system that New leaves.
  unfoldable pub opened : PoolConfig → B.World → System B
  opened cfg w = idle (start B cfg w)

module _ (B : Backend) (L : IssuesFreshIds B) where
  pub idle-Inv_nil : (cfg : PoolConfig) (w : B.World) → Inv B L (idle B (empty_pool B cfg, w))
  unfolding empty_pool handles
  idle-Inv_nil cfg w = record {
    sound = record { nodup = tt; keyed = tt };
    placed = λ t. omega (arith, count-nil B t);
    once = λ t. omega (arith, count-nil B t);
    issued = λ t h. absurd (omega (arith, count-nil B t));
  }

  -- One more warm sandbox.
  idle-Inv_cons :
      (p : Pool B) (w : B.World) (h : B.Handle)
      → Inv B L (idle B (p, w))
      → (B.boot background (default_request p.cfg) w).0 ≡ ok h
      → Inv B L (idle B (add_warm B p h, (B.boot background (default_request p.cfg) w).1))
  unfolding add_warm
  idle-Inv_cons p w h v e =
      let req = default_request p.cfg in
      let fresh = L.boot_fresh background req w h e in
      let none_yet = uncounted B L w (B.id h) p.warm v.issued fresh in
      record {
        sound = record { nodup = v.sound.nodup; keyed = v.sound.keyed };
        placed = λ t. omega (arith, v.placed t, count-cons B t h p.warm);
        once = λ t. booted_once B L (B.id h) t h p.warm refl (v.once t) none_yet;
        issued = λ t.
            booted_issued B L (B.boot background req w).1 t h p.warm
              (L.boot_issues background req w h e)
              (λ more. L.boot_keeps background req w t (v.issued t more));
      }

  idle-Inv_failed :
      (p : Pool B) (w : B.World)
      → Inv B L (idle B (p, w))
      → Inv B L (idle B (p, (B.boot background (default_request p.cfg) w).1))
  idle-Inv_failed p w v = record {
    sound = v.sound;
    placed = v.placed;
    once = v.once;
    issued = λ t more. L.boot_keeps background (default_request p.cfg) w t (v.issued t more);
  }

  pub warmed-Inv :
      (p : Pool B) (w : B.World) (r : Result B.Handle)
      → (B.boot background (default_request p.cfg) w).0 ≡ r
      → Inv B L (idle B (p, w))
      → Inv B L (idle B (warmed B p r, (B.boot background (default_request p.cfg) w).1))
  warmed-Inv p w (ok h) e v = idle-Inv_cons p w h v e
  warmed-Inv p w (err x) e v = idle-Inv_failed p w v

  fill-Inv :
      (n : ℕ) (p : Pool B) (w : B.World) → Inv B L (idle B (p, w)) → Inv B L (idle B (fill B n p w))
  unfolding fill
  fill-Inv zero p w v = v
  fill-Inv (suc n) p w v = fill-Inv n _ _ (warmed-Inv p w _ refl v)

  pub opened-Inv : (cfg : PoolConfig) (w : B.World) → Inv B L (opened B cfg w)
  unfolding opened start
  opened-Inv cfg w = fill-Inv (rounds cfg.pool_size) (empty_pool B cfg) w (idle-Inv_nil cfg w)

  -- After any history, an identity that Boot returned is in exactly one place: it is warm, active,
  -- in the hands of one goroutine, or destroyed; any other identity is in none. So no sandbox is
  -- lost, given to two clients, or destroyed twice.
  pub count_places-run :
      (cfg : PoolConfig) (w : B.World) (es : List Event) (t : Text)
      → let s = run B (opened B cfg w) es in
        (count_places B t s ≡ count B t s.booted) × (count_places B t s ≤ 1)
  count_places-run cfg w es t =
      let v = run-Inv B L (opened B cfg w) es (opened-Inv cfg w) in
      (v.placed t, omega (arith, v.placed t, v.once t))

  active_counted :
      (s : System B) (i : Text) (a : Allocation B)
      → Inv B L s
      → Dict.lookup i s.pool.active ≡ some a
      → (B.id a.handle ≡ i) × (1 ≤ count_active B i s.pool.active)
  active_counted s i a v e =
      let own = lookup_keyed B i a s.pool.active v.sound.keyed e in
      (
        own,
        omega
            (arith, count-erase B i i a s.pool.active v.sound.nodup e, ap (hit i) own, hit_self i),
      )

  -- After any history, an active sandbox is stored under its own identity, and is neither warm,
  -- nor held by a goroutine, nor destroyed.
  pub active_alone :
      (cfg : PoolConfig) (w : B.World) (es : List Event) (i : Text) (a : Allocation B)
      → let s = run B (opened B cfg w) es in
        Dict.lookup i s.pool.active ≡ some a
        → (B.id a.handle ≡ i)
          × (count B i s.pool.warm ≡ 0)
          × (count_threads B i s.threads ≡ 0)
          × (count B i s.destroyed ≡ 0)
  active_alone cfg w es i a e =
      let s = run B (opened B cfg w) es in
      let v = run-Inv B L (opened B cfg w) es (opened-Inv cfg w) in
      let (own, counted) = active_counted s i a v e in
      (
        own,
        omega (arith, v.placed i, v.once i),
        omega (arith, v.placed i, v.once i),
        omega (arith, v.placed i, v.once i),
      )
