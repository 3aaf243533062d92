-- ===== src/Sandbox/Pool/Lifecycle.antt =====
-- The life of a sandbox in sandbox/sandbox.go, as a specification that forgets which goroutine and
-- which list has it: it is booted, warm, active, taken out to be destroyed, and destroyed.
pub mod Steps
pub mod Forward
use emberbox.Prelude.{ℕ, zero, suc, ◌+◌, ◌≡◌, Text, List, [], ◌∷◌, arith}
use Prim.Native.Nat.{min}
use emberbox.Sandbox.{Backend}
use emberbox.Sandbox.Pool.Threads.{Thread, System, inserts, adds}
use emberbox.Sandbox.Pool.Ownership.Counts.{count, count_active}
use emberbox.Sandbox.Pool.Targets.Histories.{count_doomed}

pub data Stage : Type 0 where
  unknown : Stage
  booting : Stage
  warm : Stage
  active : Stage
  removed : Stage
  destroyed : Stage

-- The order of the stages: an Allocate that boots its own sandbox passes over `warm`, and a
-- Shutdown takes warm ones out that were never active.
unfoldable pub order : Stage → ℕ
order unknown = 0
order booting = 1
order warm = 2
order active = 3
order removed = 4
order destroyed = 5

-- The last stage that a count is not zero at.
unfoldable pub last_stage : ℕ → ℕ → ℕ → ℕ → ℕ → Stage
last_stage (suc n) o a w f = destroyed
last_stage zero (suc n) a w f = removed
last_stage zero zero (suc n) w f = active
last_stage zero zero zero (suc n) f = warm
last_stage zero zero zero zero (suc n) = booting
last_stage zero zero zero zero zero = unknown

module _ (B : Backend) where
  -- The handles that a goroutine has booted and not stored yet.
  abbrev pub new : Thread B → List B.Handle
  new (inserts req h) = h ∷ []
  new (adds n h) = h ∷ []
  new _ = []

  abbrev pub count_new : Text → List (Thread B) → ℕ
  count_new t [] = 0
  count_new t (th ∷ ths) = count B t (new th) + count_new t ths

  -- The stage of the sandbox with an identity.
  unfoldable pub stage : Text → System B → Stage
  unfolding last_stage
  stage t s =
      last_stage (count B t s.destroyed) (count_doomed B t s.threads)
        (count_active B t s.pool.active) (count B t s.pool.warm) (count_new t s.threads)

pub order-last_stage :
    (d o a w f : ℕ)
    → order (last_stage d o a w f)
      ≡ min 1 d
        + min 1 (d + o)
        + min 1 (d + o + a)
        + min 1 (d + o + a + w)
        + min 1 (d + o + a + w + f)
unfolding order last_stage
order-last_stage (suc n) o a w f = omega arith
order-last_stage zero (suc n) a w f = omega arith
order-last_stage zero zero (suc n) w f = omega arith
order-last_stage zero zero zero (suc n) f = omega arith
order-last_stage zero zero zero zero (suc n) = omega arith
order-last_stage zero zero zero zero zero = omega arith
