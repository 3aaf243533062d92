-- ===== src/Tests/FleetTests.antt =====
-- The pool of sandbox/sandbox.go over the Firecracker backend, on a host with a fleet of microVMs.
use emberbox.Errors.{ok}
use emberbox.Sandbox.Firecracker.Boot.{boot}
use emberbox.Sandbox.Handles.{AnyHandle}
use emberbox.Prelude.{suc, Text, ◌≡◌, ◌≤◌, refl, false, [], ◌∷◌, List, All, length, replicate}
use emberbox.Context.{background}
use emberbox.Sandbox.Pool.Sections.{take_all}
use emberbox.Sandbox.Pool.Threads.{
  Event, arrives, runs, allocate_call, release_call, shutdown_call, run,
}
use emberbox.Sandbox.Pool.Histories.{opened}
use emberbox.Sandbox.Pool.Ownership.Counts.{count}
use emberbox.Sandbox.Pool.Ownership.Steps.{count_threads}
use emberbox.Sandbox.Firecracker.Retirement.{IsOff}
use emberbox.Sandbox.Firecracker.Retirement.Histories.{vms, unused, destroyed-IsOff, shutdown-IsOff}
use emberbox.Tests.Counting.{two_warm, plain_request}
use emberbox.Tests.ToyMachine.{toy_config}
use emberbox.Tests.ToyFleet.{Fleet, fleet, fleet_launch, fleet-FreshVms, fleet-Reaps}

abbrev idle_fleet : Fleet
idle_fleet = record { drawn = 0; exited = λ pid. false }

-- A client takes a microVM and gives it back.
abbrev visit : List Event
visit =
    arrives (allocate_call background plain_request)
    ∷ runs 0
    ∷ arrives (release_call background (1 ∷ []))
    ∷ runs 2
    ∷ runs 2
    ∷ []

destroyed-IsOff_example :
    let B = vms fleet toy_config fleet_launch in
    let s = run B (opened B two_warm (unused fleet toy_config fleet_launch idle_fleet)) visit in
    All (IsOff fleet toy_config fleet_launch fleet-FreshVms fleet-Reaps s.world) s.destroyed
destroyed-IsOff_example =
    destroyed-IsOff fleet toy_config fleet_launch fleet-FreshVms fleet-Reaps two_warm idle_fleet
      visit

new_quiet :
    (j : Text)
    → let B = vms fleet toy_config fleet_launch in
      count_threads B j
        (run B (opened B two_warm (unused fleet toy_config fleet_launch idle_fleet)) []).threads
      ≡ 0
unfolding run opened
new_quiet j = refl

shutdown-IsOff_example :
    let B = vms fleet toy_config fleet_launch in
    let s = run B (opened B two_warm (unused fleet toy_config fleet_launch idle_fleet)) [] in
    let n = suc (length (take_all B s.pool).0) in
    let t = run B s (arrives (shutdown_call background) ∷ replicate n (runs (length s.threads))) in
    (t.pool.warm ≡ [])
    × (t.pool.active ≡ [])
    × (count B (0 ∷ []) t.destroyed ≡ count B (0 ∷ []) s.booted)
    × (count B (0 ∷ []) t.destroyed ≤ 1)
    × All (IsOff fleet toy_config fleet_launch fleet-FreshVms fleet-Reaps t.world) t.destroyed
shutdown-IsOff_example =
    shutdown-IsOff fleet toy_config fleet_launch fleet-FreshVms fleet-Reaps two_warm idle_fleet []
      background (0 ∷ []) new_quiet

-- A boot on this host succeeds.
fleet_boots :
    (h : AnyHandle) × ((boot fleet toy_config fleet_launch background plain_request
        (unused fleet toy_config fleet_launch idle_fleet)).0
      ≡ ok h)
unfolding boot emberbox.Sandbox.Firecracker.validate_config
    emberbox.Sandbox.Firecracker.Boot.drive_boot emberbox.Sandbox.Firecracker.Boot.attempt
    emberbox.Sandbox.FirecrackerApi.put_json emberbox.Sandbox.Firecracker.Boot.wait_for_api
    emberbox.Sandbox.FirecrackerApi.wait_for_socket emberbox.Sandbox.Polling.poll_until
    emberbox.Sandbox.Firecracker.Boot.wait_for_agent
    emberbox.Sandbox.AgentClient.Probe.wait_for_vsock_agent
    emberbox.Sandbox.AgentClient.Probe.vsock_probe emberbox.Sandbox.AgentClient.accepts
    emberbox.Prelude.has_prefix emberbox.Prelude.text
fleet_boots = (_, refl)
