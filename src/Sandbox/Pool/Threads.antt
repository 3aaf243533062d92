-- ===== src/Sandbox/Pool/Threads.antt =====
-- sandbox/sandbox.go under concurrent calls. A goroutine is the point that it has reached in a
-- method: its next critical section or backend call is one step. A history is a list of events:
-- a client calls a method, or the scheduler lets one goroutine make its step.
use emberbox.Prelude.{Option, ℕ, zero, suc, Text, none, some, List, [], ◌∷◌, ◌++◌, get_elem?, set}
use emberbox.Prelude.Int.{ℤ}
use emberbox.Errors.{Result, ok, err, wrap}
use emberbox.Context.{Context, background}
use emberbox.Sandbox.{Backend, AllocRequest, ExecResult}
use emberbox.Sandbox.Pool.Sections.{
  Allocation, Pool, rounds, with_defaults, default_request, insert_active, take_warm, find_active,
  remove_active, take_all, needed, add_warm,
}
use emberbox.Sandbox.Pool.Methods.{not_found, boot_prefix, dispatch}

pub record ExecCall : Type 0 where
  pub ctx : Context
  pub now : ℤ
  pub elapsed : ℤ
  pub id : Text
  pub tool : Text
  pub input : Text

pub data Call : Type 0 where
  allocate_call : Context → AllocRequest → Call
  execute_call : ExecCall → Call
  release_call : Context → Text → Call
  shutdown_call : Context → Call

pub data Event : Type 0 where
  arrives : Call → Event
  runs : ℕ → Event

module _ (B : Backend) where
  pub data Thread : Type 0 where
    -- Allocate: before its first section; warm was empty; booted; returned.
    allocates : Context → AllocRequest → Thread
    boots : Context → AllocRequest → Thread
    inserts : AllocRequest → B.Handle → Thread
    allocated : Result Text → Thread
    -- replenishWarmPool: before its section; with rounds left; with a handle to append.
    replenishes : Thread
    refills : ℕ → Thread
    adds : ℕ → B.Handle → Thread
    -- Execute: before its section; with the allocation found; returned.
    executes : ExecCall → Thread
    dispatches : ExecCall → Allocation B → Thread
    executed : Result ExecResult → Thread
    -- Release and Shutdown: before their section; with handles left to destroy.
    releases : Context → Text → Thread
    shuts_down : Context → Thread
    destroys : Context → List B.Handle → Thread
    finished : Thread

  -- What one step of a goroutine leaves. `spawned` are the goroutines that it started; `booted`
  -- and `destroyed` record the handles that Boot returned or Destroy was called on in it.
  pub record Move : Type 0 where
    pub thread : Thread
    pub pool : Pool B
    pub world : B.World
    pub spawned : List Thread
    pub booted : List B.Handle
    pub destroyed : List B.Handle

  -- A step that only moves the goroutine on.
  abbrev quiet : Pool B → B.World → Thread → Move
  quiet p w t = record {
    thread = t;
    pool = p;
    world = w;
    spawned = [];
    booted = [];
    destroyed = [];
  }

  abbrev pub after_first :
      Pool B → B.World → Context → AllocRequest → Option (B.Handle × Pool B) → Move
  after_first p w ctx full none = quiet p w (boots ctx full)
  after_first p w ctx full (some (h, p')) = record (quiet p' w (allocated (ok (B.id h)))) {
    spawned = replenishes ∷ [];
  }

  abbrev pub after_boot : Pool B → B.World → AllocRequest → Result B.Handle → Move
  after_boot p w req (ok h) = record (quiet p w (inserts req h)) { booted = h ∷ [] }
  after_boot p w req (err e) = quiet p w (allocated (err (wrap boot_prefix e)))

  abbrev pub after_warm_boot : Pool B → B.World → ℕ → Result B.Handle → Move
  after_warm_boot p w n (ok h) = record (quiet p w (adds n h)) { booted = h ∷ [] }
  after_warm_boot p w n (err e) = quiet p w finished

  -- One step of a goroutine.
  unfoldable pub advance : Pool B → B.World → Thread → Move
  advance p w (allocates ctx req) =
      let full = with_defaults p.cfg req in after_first p w ctx full (take_warm B p full)
  advance p w (boots ctx req) = let (r, w') = B.boot ctx req w in after_boot p w' req r
  advance p w (inserts req h) = quiet (insert_active B p req h) w (allocated (ok (B.id h)))
  advance p w replenishes = quiet p w (refills (rounds (needed B p)))
  advance p w (refills zero) = quiet p w finished
  advance p w (refills (suc n)) =
      let (r, w') = B.boot background (default_request p.cfg) w in after_warm_boot p w' n r
  advance p w (adds n h) = quiet (add_warm B p h) w (refills n)
  advance p w (executes c) = quiet p w (elim (find_active B p c.id) [
    | none ↦ executed (err (not_found c.id))
    | some a ↦ dispatches c a
  ])
  advance p w (dispatches c a) =
      let (r, w') = dispatch B c.ctx c.now c.elapsed a c.tool c.input w in quiet p w' (executed r)
  advance p w (releases ctx i) =
      let (found, p') = remove_active B p i in
      quiet p' w (elim found [ none ↦ finished | some a ↦ destroys ctx (a.handle ∷ []) ])
  advance p w (shuts_down ctx) = let (hs, p') = take_all B p in quiet p' w (destroys ctx hs)
  advance p w (destroys ctx []) = quiet p w finished
  advance p w (destroys ctx (h ∷ hs)) = record (quiet p (B.destroy ctx h w).1 (destroys ctx hs)) {
    destroyed = h ∷ [];
  }
  advance p w (allocated r) = quiet p w (allocated r)
  advance p w (executed r) = quiet p w (executed r)
  advance p w finished = quiet p w finished

  pub record System : Type 0 where
    pub pool : Pool B
    pub world : B.World
    pub threads : List Thread
    pub booted : List B.Handle
    pub destroyed : List B.Handle

  abbrev pub begin : Call → Thread
  begin (allocate_call ctx req) = allocates ctx req
  begin (execute_call c) = executes c
  begin (release_call ctx i) = releases ctx i
  begin (shutdown_call ctx) = shuts_down ctx

  abbrev pub absorb : System → ℕ → Move → System
  absorb s i m = record {
    pool = m.pool;
    world = m.world;
    threads = set s.threads i m.thread ++ m.spawned;
    booted = m.booted ++ s.booted;
    destroyed = m.destroyed ++ s.destroyed;
  }

  -- The step of the goroutine with the number `i`, if there is one.
  abbrev pub absorb_step : System → ℕ → Option Thread → System
  absorb_step s i none = s
  absorb_step s i (some t) = absorb s i (advance s.pool s.world t)

  unfoldable pub step : System → Event → System
  step s (arrives c) = record s { threads = s.threads ++ begin c ∷ [] }
  step s (runs i) = absorb_step s i (get_elem? s.threads i)

  unfoldable pub run : System → List Event → System
  run s [] = s
  run s (e ∷ es) = run (step s e) es
