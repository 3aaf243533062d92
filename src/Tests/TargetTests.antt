-- ===== src/Tests/TargetTests.antt =====
-- An Execute of sandbox/sandbox.go over the counting backend, and a Release of its sandbox between
-- its look into the active map and its call of the backend.
use emberbox.Prelude.Tally.{tally}
use emberbox.Sandbox.Pool.Lifecycle.Forward.{stage-forward}
use emberbox.Sandbox.Pool.Lifecycle.{stage, order, warm, destroyed}
use emberbox.Prelude.{◌≤◌, text_eq, List, [], ◌∷◌, ◌≡◌, ◌⊎◌, ◌<◌, refl, some, text}
use emberbox.Prelude.Int.{pos}
use emberbox.Prelude.Dict
use emberbox.Context.{background}
use emberbox.Sandbox.Pool.Threads.{
  ExecCall, Event, arrives, runs, allocate_call, execute_call, release_call, run, step, advance,
}
use emberbox.Sandbox.Pool.Sections.{
  handles, empty_pool, add_warm, take_warm, find_active, remove_active, with_defaults,
}
use emberbox.Sandbox.Pool.Methods.{start, fill}
use emberbox.Sandbox.Pool.Histories.{opened}
use emberbox.Sandbox.Pool.Ownership.Counts.{count}
use emberbox.Sandbox.Pool.Targets.Histories.{execute-OnTarget, count_removed}
use emberbox.Tests.Counting.{counting, counting-IssuesFreshIds, two_warm, word, plain_request}
use emberbox.Tests.PoolTests.{first_allocation}

abbrev exec_call : ExecCall
exec_call = record {
  ctx = background;
  now = pos 0;
  elapsed = pos 0;
  id = word 1;
  tool = text "bash";
  input = text "{}";
}

-- The Execute has found its allocation (goroutine 2, behind the Allocate and its replenisher) when
-- the Release destroys the sandbox.
abbrev raced : List Event
raced =
    arrives (allocate_call background plain_request)
    ∷ runs 0
    ∷ arrives (execute_call exec_call)
    ∷ runs 2
    ∷ arrives (release_call background (word 1))
    ∷ runs 3
    ∷ runs 3
    ∷ []

execute-OnTarget_example :
    let s = run counting (opened counting two_warm 0) raced in
    (word 1 ≡ word 1)
    × (count counting (word 1) s.booted ≡ 1)
    × ((Dict.lookup (word 1) s.pool.active ≡ some first_allocation)
        ⊎ (0 < count_removed counting (word 1) s))
unfolding run opened start fill add_warm empty_pool step advance take_warm find_active remove_active
    Dict.lookup Dict.insert text_eq with_defaults
execute-OnTarget_example =
    execute-OnTarget counting counting-IssuesFreshIds two_warm 0 raced 2 exec_call first_allocation
      refl

-- It calls the backend for the sandbox that has been destroyed.
raced-destroyed : (run counting (opened counting two_warm 0) raced).destroyed ≡ word 1 ∷ []
unfolding run opened start fill add_warm empty_pool step advance take_warm find_active remove_active
    Dict.lookup Dict.insert text_eq with_defaults
raced-destroyed = refl

-- The sandbox that the client takes, before and after the race.
stage_before : stage counting (word 1) (opened counting two_warm 0) ≡ warm
unfolding stage opened start fill add_warm empty_pool text_eq handles tally
stage_before = refl

stage_after : stage counting (word 1) (run counting (opened counting two_warm 0) raced) ≡ destroyed
unfolding stage run opened start fill add_warm empty_pool step advance take_warm find_active
    remove_active Dict.lookup Dict.insert Dict.erase text_eq with_defaults handles tally
stage_after = refl

stage-forward_example :
    order (stage counting (word 1) (run counting (opened counting two_warm 0) []))
    ≤ order (
        stage counting (word 1) (run counting (run counting (opened counting two_warm 0) []) raced))
stage-forward_example = stage-forward counting counting-IssuesFreshIds two_warm 0 [] raced (word 1)
