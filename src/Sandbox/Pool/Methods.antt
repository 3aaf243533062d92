-- ===== src/Sandbox/Pool/Methods.antt =====
-- sandbox/sandbox.go: the methods of Pool, each run from start to end with no other call between
-- its critical sections. The clock is an argument: `now` in nanoseconds, `elapsed` in
-- milliseconds.
use emberbox.Prelude.{
  Option, ℕ, zero, suc, Text, text, none, some, List, [], ◌∷◌, ◌++◌, Bool, true, false,
  if◌then◌else◌,
}
use emberbox.Prelude.Int.{ℤ, pos, eqb_ℤ, ltb_ℤ}
use emberbox.Errors.{Result, ok, err, Error, wrap, wrapped, sentinel, vm_not_found}
use emberbox.Context.{Context, background, with_timeout}
use emberbox.Sandbox.{Backend, AllocRequest, ExecResult}
use emberbox.Sandbox.Pool.Sections.{
  Allocation, Pool, PoolConfig, rounds, with_defaults, default_request, empty_pool, insert_active,
  take_warm, find_active, remove_active, take_all, needed, add_warm,
}

-- fmt.Errorf("emberbox/sandbox: %w: %s", ErrVMNotFound, id)
unfoldable pub not_found : Text → Error
not_found i = wrapped (text "emberbox/sandbox: ") (sentinel vm_not_found) (text ": " ++ i)

-- The prefixes of the errors that Allocate and Execute wrap.
unfoldable pub boot_prefix : Text
boot_prefix = text "emberbox/sandbox: boot: "

unfoldable pub exec_prefix : Text
exec_prefix = text "emberbox/sandbox: exec: "

-- if result.DurationMS == 0 { … }
abbrev pub stamp : ℤ → ExecResult → ExecResult
stamp elapsed r = if eqb_ℤ r.duration_ms (pos 0) then record r { duration_ms = elapsed } else r

abbrev pub stamped : ℤ → Result ExecResult → Result ExecResult
stamped elapsed (ok r) = ok (stamp elapsed r)
stamped elapsed (err e) = err (wrap exec_prefix e)

module _ (B : Backend) where
  -- A call of a method: what it returns, and what it leaves. `spawned` says that it started
  -- `go p.replenishWarmPool()`.
  pub record Outcome {ℓ} (A : Type ℓ) : Type ℓ where
    pub result : A
    pub pool : Pool B
    pub world : B.World
    pub spawned : Bool

  -- Append to the warm pool what a boot returned.
  abbrev pub warmed : Pool B → Result B.Handle → Pool B
  warmed p (ok h) = add_warm B p h
  warmed p (err _) = p

  -- The loop of New: a failed boot is skipped.
  unfoldable pub fill : ℕ → Pool B → B.World → Pool B × B.World
  fill zero p w = (p, w)
  fill (suc n) p w =
      let (r, w') = B.boot background (default_request p.cfg) w in fill n (warmed p r) w'

  -- New, once the backend is chosen.
  unfoldable pub start : PoolConfig → B.World → Pool B × B.World
  unfolding fill
  start cfg w = fill (rounds cfg.pool_size) (empty_pool B cfg) w

  -- The loop of replenishWarmPool: a failed boot ends it.
  unfoldable pub refill : ℕ → Pool B → B.World → Pool B × B.World
  refill zero p w = (p, w)
  refill (suc n) p w =
      let (r, w') = B.boot background (default_request p.cfg) w in
      elim r [ ok h ↦ refill n (add_warm B p h) w' | err _ ↦ (p, w') ]

  unfoldable pub replenish_warm_pool : Pool B → B.World → Pool B × B.World
  unfolding refill
  replenish_warm_pool p w = refill (rounds (needed B p)) p w

  -- What becomes of a fresh boot.
  abbrev pub after_boot : Pool B → AllocRequest → Result B.Handle → B.World → Outcome (Result Text)
  after_boot p req (ok h) w = record {
    result = ok (B.id h);
    pool = insert_active B p req h;
    world = w;
    spawned = false;
  }
  after_boot p req (err e) w = record {
    result = err (wrap boot_prefix e);
    pool = p;
    world = w;
    spawned = false;
  }

  -- Allocate after its first critical section.
  abbrev pub after_first :
      Pool B → Context → AllocRequest → B.World → Option (B.Handle × Pool B) → Outcome (Result Text)
  after_first p ctx req w (some (h, p')) = record {
    result = ok (B.id h);
    pool = p';
    world = w;
    spawned = true;
  }
  after_first p ctx req w none = let (r, w') = B.boot ctx req w in after_boot p req r w'

  unfoldable pub allocate : Pool B → Context → AllocRequest → B.World → Outcome (Result Text)
  allocate p ctx req w =
      let full = with_defaults p.cfg req in after_first p ctx full w (take_warm B p full)

  -- The context that the backend is called with.
  unfoldable pub exec_context : Context → ℤ → Allocation B → Context
  exec_context ctx now a =
      if ltb_ℤ (pos 0) a.req.timeout then with_timeout ctx now a.req.timeout else ctx

  -- Execute once the allocation is found: the call of the backend, and what becomes of its result.
  unfoldable pub dispatch :
      Context → ℤ → ℤ → Allocation B → Text → Text → B.World → Result ExecResult × B.World
  unfolding exec_context
  dispatch ctx now elapsed a tool input w =
      let (r, w') = B.exec (exec_context ctx now a) a.handle tool input w in
      (elim r [ ok res ↦ ok (stamp elapsed res) | err e ↦ err (wrap exec_prefix e) ], w')

  unfoldable pub execute :
      Pool B → Context → ℤ → ℤ → Text → Text → Text → B.World → Result ExecResult × B.World
  unfolding dispatch
  execute p ctx now elapsed i tool input w = elim (find_active B p i) [
    | none ↦ (err (not_found i), w)
    | some a ↦ dispatch ctx now elapsed a tool input w
  ]

  -- Destroy is called on each handle in turn; its error is only logged.
  unfoldable pub destroy_all : Context → List B.Handle → B.World → B.World
  destroy_all ctx [] w = w
  destroy_all ctx (h ∷ hs) w = destroy_all ctx hs (B.destroy ctx h w).1

  unfoldable pub release : Pool B → Context → Text → B.World → Pool B × B.World
  release p ctx i w =
      let (found, p') = remove_active B p i in
      elim found [ none ↦ (p', w) | some a ↦ (p', (B.destroy ctx a.handle w).1) ]

  unfoldable pub shutdown : Pool B → Context → B.World → Pool B × B.World
  unfolding destroy_all
  shutdown p ctx w = let (hs, p') = take_all B p in (p', destroy_all ctx hs w)
