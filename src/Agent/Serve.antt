-- ===== src/Agent/Serve.antt =====
-- agent/agent.go: Serve, with the goroutines that it starts, as a machine that takes one event at a
-- time. A connection is the bytes that its peer sends.
pub mod Drain
pub mod Stops
use emberbox.Prelude.{
  Text, text, ℕ, zero, suc, List, [], ◌∷◌, Bool, true, false, Option, none, some, if◌then◌else◌,
}
use emberbox.Prelude.Int.{ℤ}
use emberbox.Errors.{Error, wrap}
use emberbox.Context.{Context}
use emberbox.Agent.{Agent, handle_connection}
use emberbox.Agent.Wire.{Json}

-- Accepting, waiting for the goroutines, or returned.
pub data Phase : Type 0 where
  accepting draining : Phase
  returned : Option Error → Phase

-- `accepts` and `accept_fails` are what Accept returns, `runs i` the handler of the open connection
-- number `i` from start to end, `cancels` the end of the context, `waited` the return of wg.Wait,
-- which does not happen while a handler is left.
pub data ServeEvent : Type 0 where
  accepts : Text → ServeEvent
  accept_fails : Error → ServeEvent
  runs : ℕ → ServeEvent
  cancels waited : ServeEvent

pub record Server (W : Type 0) : Type 0 where
  pub accepted : List Text
  pub open_conns : List Text
  pub handled : List Text
  pub cancelled : Bool
  pub phase : Phase
  pub world : W

-- The element at a position, and the list without it.
abbrev with_head : Text → Option (Text × List Text) → Option (Text × List Text)
with_head x none = none
with_head x (some (y, ys)) = some (y, x ∷ ys)

unfoldable pub pick : ℕ → List Text → Option (Text × List Text)
pick i [] = none
pick zero (x ∷ xs) = some (x, xs)
pick (suc i) (x ∷ xs) = with_head x (pick i xs)

module _ {W : Type 0} (j : Json) (now : W → ℤ) (a : Agent W) (ctx : Context) where
  unfoldable pub listening : W → Server W
  listening w = record {
    accepted = [];
    open_conns = [];
    handled = [];
    cancelled = false;
    phase = accepting;
    world = w;
  }

  abbrev pub take_in : Server W → Text → Phase → Server W
  take_in s c accepting = record s { accepted = c ∷ s.accepted; open_conns = c ∷ s.open_conns }
  take_in s c draining = s
  take_in s c (returned r) = s

  -- if ctx.Err() != nil { wg.Wait(); return nil }
  abbrev pub stop : Server W → Error → Phase → Server W
  stop s e accepting = record s {
    phase =
        if s.cancelled
        then draining
        else returned (some (wrap (text "emberbox/agent: accept: ") e));
  }
  stop s e draining = s
  stop s e (returned r) = s

  abbrev pub close_conn : Server W → Option (Text × List Text) → Server W
  close_conn s none = s
  close_conn s (some (c, rest)) = record s {
    open_conns = rest;
    handled = c ∷ s.handled;
    world = (handle_connection j now a ctx c s.world).1;
  }

  abbrev pub drained : Server W → Phase → List Text → Server W
  drained s draining [] = record s { phase = returned none }
  drained s p conns = s

  unfoldable pub take_event : Server W → ServeEvent → Server W
  take_event s (accepts c) = take_in s c s.phase
  take_event s (accept_fails e) = stop s e s.phase
  take_event s (runs i) = close_conn s (pick i s.open_conns)
  take_event s cancels = record s { cancelled = true }
  take_event s waited = drained s s.phase s.open_conns

  unfoldable pub serve : Server W → List ServeEvent → Server W
  serve s [] = s
  serve s (e ∷ es) = serve (take_event s e) es
