-- ===== src/Tests/ProgressTests.antt =====
-- The goroutines of sandbox/sandbox.go over the counting backend, interleaved.
use emberbox.Prelude.{List, [], ◌∷◌, ◌++◌, ◌≡◌, refl, some, true, get_elem?, arith}
use emberbox.Sandbox.Pool.Sections.{empty_pool, add_warm, take_warm}
use emberbox.Sandbox.Pool.Methods.{start, fill}
use emberbox.Sandbox.Pool.Threads.{Thread, Event, runs, run, step, advance, replenishes}
use emberbox.Sandbox.Pool.Histories.{opened}
use emberbox.Sandbox.Pool.Progress.{returned, turns, step_bound}
use emberbox.Sandbox.Pool.Progress.Interleaved.{goroutine_returns}
use emberbox.Tests.Counting.{counting}
use emberbox.Tests.PoolTests.{busy}

-- Two replenishing goroutines in turn, three times each.
abbrev in_turn : List Event
in_turn = runs 2 ∷ runs 3 ∷ runs 2 ∷ runs 3 ∷ runs 2 ∷ runs 3 ∷ []

in_turn-turns : turns 2 (in_turn ++ in_turn) ≡ 6
unfolding turns native.Mathlib.Decide.ℕ_discrete
in_turn-turns = refl

goroutine_returns_example :
    (end : Thread counting) × (get_elem? (run counting busy (in_turn ++ in_turn)).threads 2
      ≡ some end)
    × (returned counting end ≡ true)
unfolding run opened start fill add_warm empty_pool step advance take_warm step_bound
goroutine_returns_example =
    goroutine_returns counting busy (in_turn ++ in_turn) 2 replenishes 6 refl refl
      (omega (arith, in_turn-turns))
