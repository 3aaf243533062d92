-- ===== src/Tests/PoolTests.antt =====
-- The pool of sandbox/sandbox.go over the counting backend.
use emberbox.Sandbox.Pool.Progress.{turns}
use emberbox.Sandbox.Pool.Collisions.{allocate_collides}
use emberbox.Sandbox.Pool.Shutdown.{shutdown_misses, shutdown_drains}
use emberbox.Sandbox.Pool.Ownership.Steps.{count_threads}
use emberbox.Sandbox.Pool.Calls.{release_lem, allocate-IsAllocated, IsAllocated}
use emberbox.Sandbox.Pool.WarmPool.{overfill}
use emberbox.Sandbox.Pool.WarmPool.Pairs.{OnlyRuns}
use emberbox.Sandbox.Pool.Alone.{call_alone, Stands, sequential}
use emberbox.Sandbox.{Backend, AllocRequest}
use emberbox.Sandbox.Pool.Ownership.Counts.{count}
use emberbox.Sandbox.Pool.Ownership.{run-Inv, count_places}
use emberbox.Prelude.Int.{pos, ◌-ℤ◌}
use emberbox.Prelude.{
  inl, inr, zero, ℕ, All, ◌≢◌, none, if◌then◌else◌, text_eq, get_elem?, replicate, suc, ◌+◌, ◌≤◌,
  ◌≡◌, refl, some, List, [], ◌∷◌, arith, length,
}
use emberbox.Prelude.Dict
use emberbox.Errors.{sentinel, vm_not_found, Is, err, Error, ok}
use emberbox.Context.{background}
use emberbox.Sandbox.Pool.Sections.{
  handles, take_all, find_active, with_defaults, Allocation, needed, take_warm, empty_pool,
  add_warm, Pool,
}
use emberbox.Sandbox.Pool.Methods.{release, execute, allocate, start, fill}
use emberbox.Sandbox.Pool.Threads.{
  destroys, advance, Event, arrives, runs, allocate_call, shutdown_call, System, step, run,
}
use emberbox.Sandbox.Pool.Histories.{opened-Inv, active_alone, opened, count_places-run}
use emberbox.Tests.Counting.{
  counting-AlwaysBoots, word, two_warm, plain_request, counting-IssuesFreshIds, counting,
}

-- Two clients take the two warm sandboxes, and each starts a replenishing goroutine.
abbrev two_calls : List Event
two_calls =
    arrives (allocate_call background plain_request)
    ∷ arrives (allocate_call background plain_request)
    ∷ runs 0
    ∷ runs 1
    ∷ []

abbrev fresh_system : System counting
fresh_system = opened counting two_warm 0

abbrev pub busy : System counting
busy = run counting fresh_system two_calls

opened_warm : fresh_system.pool.warm ≡ word 1 ∷ word 0 ∷ []
unfolding opened start fill add_warm empty_pool
opened_warm = refl

-- The two replenishing goroutines in turn.
abbrev alternating : ℕ → List Event
alternating zero = []
alternating (suc n) = runs 2 ∷ runs 3 ∷ alternating n

alternating-OnlyRuns : (n : ℕ) → All (OnlyRuns 2 3) (alternating n)
alternating-OnlyRuns zero = tt
alternating-OnlyRuns (suc n) = (inl refl, (inr refl, alternating-OnlyRuns n))

-- What they leave is four warm sandboxes where two were asked for.
rushed : (run counting busy (alternating 6)).pool.warm ≡ word 5 ∷ word 4 ∷ word 3 ∷ word 2 ∷ []
unfolding run opened start fill add_warm empty_pool step advance take_warm needed ◌-ℤ◌
rushed = refl

one_has_turns : turns 2 (alternating 5) ≡ 5
unfolding turns native.Mathlib.Decide.ℕ_discrete
one_has_turns = refl

other_has_turns : turns 3 (alternating 5) ≡ 5
unfolding turns native.Mathlib.Decide.ℕ_discrete
other_has_turns = refl

count_places-run_example :
    let s = run counting (opened counting two_warm 0) two_calls in
    (count_places counting (word 1) s ≡ count counting (word 1) s.booted)
    × (count_places counting (word 1) s ≤ 1)
count_places-run_example =
    count_places-run counting counting-IssuesFreshIds two_warm 0 two_calls (word 1)

abbrev pub full_request : AllocRequest
full_request = record plain_request { memory_mb = pos 256; vcpus = pos 2; timeout = pos 5000000000 }

abbrev pub first_allocation : Allocation counting
first_allocation = record { handle = word 1; req = full_request }

active_alone_example :
    let s = run counting (opened counting two_warm 0) two_calls in
    (word 1 ≡ word 1)
    × (count counting (word 1) s.pool.warm ≡ 0)
    × (count_threads counting (word 1) s.threads ≡ 0)
    × (count counting (word 1) s.destroyed ≡ 0)
unfolding run opened start fill add_warm empty_pool step advance take_warm with_defaults Dict.lookup
    Dict.insert text_eq
active_alone_example =
    active_alone counting counting-IssuesFreshIds two_warm 0 two_calls (word 1) first_allocation
      refl

call_alone_example :
    let s = opened counting two_warm 0 in
    let c = allocate_call background plain_request in
    let t = run counting s (arrives c ∷ replicate 3 (runs 0)) in
    let (th, p, w) = sequential counting s.pool s.world c in Stands counting t 0 th p w
unfolding opened
call_alone_example =
    call_alone counting (opened counting two_warm 0) (allocate_call background plain_request)

-- A pool with the two warm sandboxes, and the one that Allocate leaves of it.
abbrev warm_pool : Pool counting
warm_pool = record { cfg = two_warm; warm = word 1 ∷ word 0 ∷ []; active = [] }

abbrev used_pool : Pool counting
used_pool = record { cfg = two_warm; warm = word 0 ∷ []; active = (word 1, first_allocation) ∷ [] }

allocate-IsAllocated_example :
    IsAllocated counting warm_pool full_request
      (ok (word 2))
      (allocate counting warm_pool background plain_request 2)
unfolding with_defaults
allocate-IsAllocated_example = allocate-IsAllocated counting warm_pool background plain_request 2

release_lem_example :
    let (p', w') = release counting used_pool background (word 1) 2 in
    (find_active counting p' (word 1)
      ≡ (if text_eq (word 1) (word 1) then none else find_active counting used_pool (word 1)))
    × (release counting p' background (word 1) w' ≡ (p', w'))
    × (e : Error) × (execute counting p' background (pos 7) (pos 3) (word 1) [] [] w' ≡ (err e, w'))
    × Is e vm_not_found
release_lem_example =
    release_lem counting used_pool background background (pos 7) (pos 3) (word 1) (word 1) [] [] 2

overfill_example : length (run counting busy (runs 2 ∷ runs 3 ∷ alternating 5)).pool.warm ≡ 2 + 2
unfolding run opened start fill add_warm empty_pool step advance take_warm
overfill_example =
    overfill counting busy 2 3 (alternating 5) counting-AlwaysBoots (λ e. absurd (omega arith)) refl
      refl (omega arith) (alternating-OnlyRuns 5) (omega (arith, one_has_turns))
      (omega (arith, other_has_turns))

shutdown_drains_example :
    let s = opened counting two_warm 0 in
    let n = suc (length (take_all counting s.pool).0) in
    let t = run counting s (arrives (shutdown_call background) ∷ replicate n (runs 0)) in
    (t.pool.warm ≡ [])
    × (t.pool.active ≡ [])
    × (count counting (word 1) t.destroyed ≡ count counting (word 1) s.booted)
    × (count counting (word 1) t.destroyed ≤ 1)
unfolding opened
shutdown_drains_example =
    shutdown_drains counting counting-IssuesFreshIds (opened counting two_warm 0) background
      (word 1) (opened-Inv counting counting-IssuesFreshIds two_warm 0) (λ y. refl)

-- One client has taken a sandbox; the goroutine that replaces it has booted `word 2`.
abbrev replace_calls : List Event
replace_calls = arrives (allocate_call background plain_request) ∷ runs 0 ∷ runs 1 ∷ runs 1 ∷ []

abbrev replacing : System counting
replacing = run counting fresh_system replace_calls

shutdown_misses_example :
    let t = run counting replacing (arrives (shutdown_call background) ∷ runs 2 ∷ runs 1 ∷ []) in
    (t.pool.warm ≡ word 2 ∷ [])
    × (get_elem? t.threads 2 ≡ some (destroys background (take_all counting replacing.pool).0))
    × (count counting (word 2) (take_all counting replacing.pool).0 ≡ 0)
    × (count counting (word 2) t.destroyed ≡ 0)
unfolding run opened start fill add_warm empty_pool step advance take_warm needed ◌-ℤ◌
shutdown_misses_example =
    shutdown_misses counting counting-IssuesFreshIds replacing background 1 0 (word 2)
      (run-Inv counting counting-IssuesFreshIds fresh_system replace_calls
        (opened-Inv counting counting-IssuesFreshIds two_warm 0))
      refl

-- A backend that issues one identity for every sandbox.
abbrev clashing : Backend
clashing = record {
  Handle = ℕ;
  World = ℕ;
  name = word 1;
  id = λ h. word 2;
  boot = λ c r w. (ok w, suc w);
  exec = λ c h tool input w. (err (sentinel vm_not_found), w);
  destroy = λ c h w. (none, w);
}

abbrev clashing_entry : Allocation clashing
clashing_entry = record { handle = 7; req = plain_request }

abbrev clashing_pool : Pool clashing
clashing_pool = record { cfg = two_warm; warm = []; active = (word 2, clashing_entry) ∷ [] }

allocate_collides_example :
    let o = allocate clashing clashing_pool background plain_request 8 in
    (o.result ≡ ok (word 2))
    × (o.world ≡ 9)
    × (find_active clashing o.pool (word 2)
        ≡ some (record { handle = 8; req = with_defaults two_warm plain_request }))
    × (length o.pool.active ≡ 1)
    × All (λ x. x ≢ 7) (handles clashing o.pool.active)
unfolding find_active Dict.lookup text_eq
allocate_collides_example =
    allocate_collides clashing clashing_pool background plain_request 8 8 clashing_entry refl refl
      refl (refl, tt) (refl, tt) (λ e. omega (arith, e))
