-- ===== src/Sandbox/Firecracker/Retirement/Histories.antt =====
-- sandbox/firecracker.go under sandbox/sandbox.go: the microVMs of a pool, after any calls.
use emberbox.Prelude.{
  ap, ◌∙◌, suc, Text, none, some, ◌≡◌, ◌≤◌, [], ◌∷◌, List, All, length, replicate,
}
use emberbox.Prelude.Dict
use emberbox.Context.{Context}
use emberbox.Sandbox.{Backend}
use emberbox.Sandbox.Retiring.{Retires}
use emberbox.Sandbox.Handles.{handle_id}
use emberbox.Sandbox.Pool.Sections.{PoolConfig, take_all}
use emberbox.Sandbox.Pool.Threads.{Event, arrives, runs, shutdown_call, run}
use emberbox.Sandbox.Pool.Histories.{opened}
use emberbox.Sandbox.Pool.Ownership.Counts.{count}
use emberbox.Sandbox.Pool.Ownership.Steps.{count_threads}
use emberbox.Sandbox.Pool.Retirement.Histories.{opened_run-Retired, shutdown_retires}
use emberbox.Sandbox.Firecracker.{FirecrackerConfig}
use emberbox.Sandbox.Firecracker.Machine.{Launch}
use emberbox.Sandbox.Firecracker.Boot.{boot, exec, destroy, Host, firecracker_backend}
use emberbox.Sandbox.Firecracker.Keeping.Lifecycle.{boot_keeps, exec_keeps, destroy_keeps}
use emberbox.Sandbox.Firecracker.Identities.{FreshVms, vm_issues}
use emberbox.Sandbox.Firecracker.Retirement.{
  Reaps, IsStopped, IsOff, boot-IsStopped, exec-IsStopped, destroy-IsStopped, boot_open,
  boot_keeps_open, vms-IsOff_keep, destroy-IsOff, exec-stops, lookup-Grows_ne, destroy-Grows,
}

module _ {W : Type 0} (host : Host W) (cfg : FirecrackerConfig) (launch : Launch W) where
  abbrev pub vms : Backend
  vms = firecracker_backend host cfg (some launch)

  -- A backend that has not destroyed a microVM yet.
  abbrev pub unused : W → vms.World
  unused w = record { host = w; stops = [] }

module _ {W : Type 0} (host : Host W) (cfg : FirecrackerConfig) (launch : Launch W)
    (fresh : FreshVms host launch) (reaps : Reaps host launch) where
  abbrev vm_retires : Retires (vms host cfg launch) (vm_issues host cfg launch fresh)
  vm_retires = record {
    Live = λ v i. Dict.lookup i v.stops ≡ none;
    Gone = IsOff host cfg launch fresh reaps;
    Sound = IsStopped host cfg launch fresh reaps;
    boot_sound = boot-IsStopped host cfg launch fresh reaps;
    exec_sound = exec-IsStopped host cfg launch fresh reaps;
    destroy_sound = destroy-IsStopped host cfg launch fresh reaps;
    boot_live = boot_open host cfg launch fresh reaps;
    boot_keeps_live = boot_keeps_open host cfg launch fresh reaps;
    exec_keeps_live = λ c h tool input v i unrun.
        ap (Dict.lookup i) (exec-stops host cfg launch fresh reaps c h tool input v) ∙ unrun;
    destroy_keeps_live = λ c h v i other unrun.
        lookup-Grows_ne host cfg launch fresh reaps (handle_id h) i v.stops _
          (destroy-Grows host cfg launch fresh reaps c h v) other
        ∙ unrun;
    boot_keeps_gone = λ c r v g.
        vms-IsOff_keep host cfg launch fresh reaps v (boot host cfg launch c r v).1 g (λ pid.
          boot_keeps host cfg (reaps.stops.IsGone pid) (reaps.kept pid) launch
            (reaps.launch_kept pid) c r v);
    exec_keeps_gone = λ c h tool input v g.
        vms-IsOff_keep host cfg launch fresh reaps v (exec host cfg c h tool input v).1 g
          (λ pid. exec_keeps host cfg (reaps.stops.IsGone pid) (reaps.kept pid) c h tool input v);
    destroy_keeps_gone = λ c h v g.
        vms-IsOff_keep host cfg launch fresh reaps v (destroy host cfg c h v).1 g
          (λ pid. destroy_keeps host cfg (reaps.stops.IsGone pid) (reaps.kept pid) c h v);
    destroy_gone = destroy-IsOff host cfg launch fresh reaps;
  }

  unused-IsStopped : (w : W) → IsStopped host cfg launch fresh reaps (unused host cfg launch w)
  unfolding Dict.lookup
  unused-IsStopped w i e found = absurd cc

  -- After New and any calls of any clients, in any interleaving, the process of every microVM that
  -- the pool has destroyed has exited, also those that outlived SIGTERM, and stays so.
  pub destroyed-IsOff :
      (pool_cfg : PoolConfig) (w : W) (es : List Event)
      → let B = vms host cfg launch in
        let s = run B (opened B pool_cfg (unused host cfg launch w)) es in
        All (IsOff host cfg launch fresh reaps s.world) s.destroyed
  destroyed-IsOff pool_cfg w es =
      (opened_run-Retired (vms host cfg launch) (vm_issues host cfg launch fresh) vm_retires
        pool_cfg (unused host cfg launch w) es (unused-IsStopped w)).gone

  -- After New and any calls, in any interleaving, a Shutdown that runs with no other call in
  -- between and while no goroutine holds a microVM leaves the pool empty, has each microVM that the
  -- pool ever booted destroyed exactly once, and the process of each has exited.
  pub shutdown-IsOff :
      (pool_cfg : PoolConfig) (w : W) (es : List Event) (ctx : Context) (i : Text)
      → ((j : Text)
          → count_threads
              (vms host cfg launch)
              j
              (run
                (vms host cfg launch)
                (opened (vms host cfg launch) pool_cfg (unused host cfg launch w))
                es).threads
            ≡ 0)
      → let B = vms host cfg launch in
        let s = run B (opened B pool_cfg (unused host cfg launch w)) es in
        let n = suc (length (take_all B s.pool).0) in
        let t = run B s (arrives (shutdown_call ctx) ∷ replicate n (runs (length s.threads))) in
        (t.pool.warm ≡ [])
        × (t.pool.active ≡ [])
        × (count B i t.destroyed ≡ count B i s.booted)
        × (count B i t.destroyed ≤ 1)
        × All (IsOff host cfg launch fresh reaps t.world) t.destroyed
  shutdown-IsOff pool_cfg w es ctx i quiet =
      shutdown_retires (vms host cfg launch) (vm_issues host cfg launch fresh) vm_retires pool_cfg
        (unused host cfg launch w) es ctx i (unused-IsStopped w) quiet
