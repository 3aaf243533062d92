-- ===== src/Tests/ExampleTests.antt =====
-- New, and the programs under examples/, at concrete inputs.
use emberbox.Errors.{Result, ok}
use emberbox.Examples.Greet.{GreetInput}
use emberbox.Examples.Programs.Laws.{on_host, custom_tool_main_lem}
use emberbox.Examples.Programs.{custom_tool_main}
use emberbox.Tests.Toys.{toy_world}
use emberbox.Tests.ToyTools.{no_inputs, no_commands, no_files, no_paths, no_web}
use emberbox.Sandbox.Pool.Methods.{dispatch, start}
use emberbox.Context.{background}
use emberbox.Sandbox.Pool.Sections.{take_warm, add_warm, find_active, empty_pool, remove_active}
use emberbox.Prelude.{Text, List, none, List, ℕ, text, [], ◌∷◌, ◌≡◌, refl}
use emberbox.Prelude.Int.{pos}
use emberbox.Prelude.Dict
use emberbox.Prelude.{text_eq}
use emberbox.Sandbox.{Backend}
use emberbox.Sandbox.New.{Config, Choice, new_pool, select_backend, mode_firecracker}
use emberbox.Sandbox.New.Laws.{SelectOutcome}
use emberbox.Sandbox.New.Pools.{NewOutcome, new_pool_lem}
use emberbox.Sandbox.Pool.Threads.{
  step, advance, arrives, runs, allocate_call, execute_call, release_call, System, Event, run,
}
use emberbox.Sandbox.Pool.Histories.{opened}
use emberbox.Examples.Audit.{audit, fresh}
use emberbox.Examples.Audit.Counters.{count_execs}
use emberbox.Examples.Audit.Transparency.{IsAudited, run-IsAudited}
use emberbox.Tests.Counting.{word, counting, two_warm, plain_request}

-- A warm sandbox is taken, used once, and released.
abbrev audited_calls : List Event
audited_calls =
    arrives (allocate_call background plain_request)
    ∷ runs 0
    ∷ arrives (
        execute_call (record {
          ctx = background;
          now = pos 0;
          elapsed = pos 1;
          id = word 1;
          tool = text "bash";
          input = [];
        }))
    ∷ runs 2
    ∷ runs 2
    ∷ arrives (release_call background (word 1))
    ∷ runs 3
    ∷ runs 3
    ∷ []

abbrev audited_run : System (audit counting)
audited_run =
    run (audit counting) (opened (audit counting) two_warm (fresh counting 0)) audited_calls

counted : audited_run.world ≡ record { inner = 2; boots = 2; execs = 1; destroys = 1 }
unfolding run opened start step advance take_warm add_warm find_active Dict.lookup Dict.insert
    empty_pool text_eq remove_active dispatch
counted = refl

run-IsAudited_example :
    IsAudited counting
      (count_execs
        (audit counting)
        (opened (audit counting) two_warm (fresh counting 0))
        audited_calls)
      (run (audit counting) (opened (audit counting) two_warm (fresh counting 0)) audited_calls)
      (run counting (opened counting two_warm 0) audited_calls)
run-IsAudited_example = run-IsAudited counting two_warm 0 audited_calls

abbrev vm_config : Config ℕ
vm_config = record {
  backend = none;
  mode = mode_firecracker;
  kernel_path = b'k' ∷ [];
  rootfs_path = b'r' ∷ [];
  tools = none;
  pool = two_warm;
}

abbrev on_counting : Choice ℕ → (B : Backend) × B.World
on_counting c = (counting, 0)

new_pool_lem_example :
    SelectOutcome [] [] (λ s. s) vm_config (select_backend [] [] (λ s. s) vm_config)
    × NewOutcome [] []
        (λ s. s)
        on_counting
        vm_config
        (new_pool [] [] (λ s. s) on_counting vm_config)
new_pool_lem_example = new_pool_lem [] [] (λ s. s) on_counting vm_config

-- Unmarshal on the one input that the program sends.
abbrev reads_name : Text → Result GreetInput
reads_name s = ok (record { name = text "emberbox" })

custom_tool_main_lem_example :
    custom_tool_main [] []
      (λ s. s)
      (on_host [] [] (λ s. s) toy_world 0 on_counting)
      no_inputs
      no_files
      no_paths
      no_commands
      no_web
      reads_name
      (pos 1)
      (pos 2)
    ≡ record { result = ok tt; out = text "hello, emberbox\n"; warm = 0; active = 0 }
custom_tool_main_lem_example =
    custom_tool_main_lem [] [] (λ s. s) toy_world 0 on_counting no_inputs no_files no_paths
      no_commands no_web (pos 1) (pos 2) reads_name refl
