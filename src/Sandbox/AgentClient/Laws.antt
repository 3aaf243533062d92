-- ===== src/Sandbox/AgentClient/Laws.antt =====
-- What sandbox/agentclient.go promises.
use native.Mathlib.Decide.{dec_lt}
use emberbox.Agent.Laws.{timeout_of-fits}
use emberbox.Agent.{timeout_of}
use emberbox.Prelude.{
  ◌⊎◌, ◌*◌, ◌/◌, ◌+◌, inr, ◌≤◌, ◌<◌, inl, trim_right, ◌≡◌, refl, Text, ℕ, Option, none, some,
  Bool-cases, arith,
}
use emberbox.Prelude.Int.{quot_ℤ, ℤ, pos}
use emberbox.Context.{Context}
use emberbox.Errors.{Result, ok, err, Error}
use emberbox.Sandbox.{ExecResult}
use emberbox.Sandbox.AgentClient.{
  is_newline, limit, request_for, after_request, after_line, after_encode, after_connect, Transport,
  agent_round_trip, dial_agent_vsock_uds, accepts,
}
use emberbox.Agent.Wire.{Json}

module _ {W : Type 0} (t : Transport W) where
  -- The last thing that a call did was to close the connection.
  abbrev pub EndsClosed : t.Conn → Result ExecResult × W → Type 0
  EndsClosed conn out = (w : W) × (out.1 ≡ t.close conn w)

  module _ (j : Json) where
    after_request-EndsClosed :
        (conn : t.Conn) (sent : Option Error × W) → EndsClosed conn (after_request t j conn sent)
    after_request-EndsClosed conn (some e, w) = (w, refl)
    after_request-EndsClosed conn (none, w) = (_, refl)

    after_encode-EndsClosed :
        (conn : t.Conn) (r : Result Text) (w : W) → EndsClosed conn (after_encode t j conn r w)
    after_encode-EndsClosed conn (err e) w = (w, refl)
    after_encode-EndsClosed conn (ok bytes) w = after_request-EndsClosed conn (t.send conn bytes w)

    -- agentRoundTrip closes the connection it is given, last of all and on every path.
    agent_round_trip-EndsClosed :
        (ctx : Context) (conn : t.Conn) (tool input : Text) (timeout : ℤ) (w : W)
        → EndsClosed conn (agent_round_trip t j ctx conn tool input timeout w)
    unfolding agent_round_trip
    agent_round_trip-EndsClosed ctx conn tool input timeout w =
        after_encode-EndsClosed conn (j.encode_request (request_for tool input timeout))
          (limit t ctx conn w)

    module _ (quote : Text → Text) where
      after_line-EndsClosed :
          (ctx : Context) (conn : t.Conn) (tool input : Text) (timeout : ℤ) (r : Result Text × W)
          → EndsClosed conn (after_line t j quote ctx conn tool input timeout r)
      after_line-EndsClosed ctx conn tool input timeout (err e, w) = (w, refl)
      after_line-EndsClosed ctx conn tool input timeout (ok raw, w) =
          elim (Bool-cases (accepts (trim_right is_newline raw))) [
            | inl e ↦ rw e (agent_round_trip-EndsClosed ctx conn tool input timeout w)
            | inr e ↦ rw e (w, refl)
          ]

      after_connect-EndsClosed :
          (ctx : Context) (conn : t.Conn) (tool input : Text) (timeout : ℤ) (r : Option Error × W)
          → EndsClosed conn (after_connect t j quote ctx conn tool input timeout r)
      after_connect-EndsClosed ctx conn tool input timeout (some e, w) = (w, refl)
      after_connect-EndsClosed ctx conn tool input timeout (none, w) =
          after_line-EndsClosed ctx conn tool input timeout (t.read_line conn w)

      -- Whatever fails after the dial, the connection is closed, last of all: a refused or broken
      -- handshake, a request that cannot be written, a reply that cannot be read.
      pub dial_agent_vsock_uds-EndsClosed :
          (ctx : Context) (uds : Text) (port : ℕ) (tool input : Text) (timeout : ℤ) (w : W)
          (conn : t.Conn)
          → (t.dial ctx none uds w).0 ≡ ok conn
          → EndsClosed conn (dial_agent_vsock_uds t j quote ctx uds port tool input timeout w)
      unfolding dial_agent_vsock_uds
      dial_agent_vsock_uds-EndsClosed ctx uds port tool input timeout w conn e =
          rw e (after_connect-EndsClosed ctx conn tool input timeout _)

request_for-seconds :
    (tool input : Text) (ns : ℕ)
    → 1000000000 ≤ ns
    → (request_for tool input (pos ns)).timeout_seconds ≡ pos (ns / 1000000000)
unfolding request_for quot_ℤ
request_for-seconds tool input ns above = ground arith

request_for-IsWithin :
    (tool input : Text) (ns : ℕ)
    → 1000000000 ≤ ns
    → ns < 8388608000000000
    → (left : ℕ) × (timeout_of (request_for tool input (pos ns)) ≡ pos left)
      × (left ≤ ns)
      × (ns < left + 1000000000)
request_for-IsWithin tool input ns above below = (
  ns / 1000000000 * 1000000000,
  timeout_of-fits (request_for tool input (pos ns)) (ns / 1000000000)
      (request_for-seconds tool input ns above) (omega arith) (omega arith),
  omega arith,
  omega arith,
)

request_for-subsecond :
    (tool input : Text) (ns : ℕ)
    → ns < 1000000000
    → timeout_of (request_for tool input (pos ns)) ≡ pos 60000000000
unfolding request_for quot_ℤ timeout_of
request_for-subsecond tool input ns below = ground arith

-- Of the nanoseconds that the host has left, the agent gives the tool at most that time, and less
-- than a second less, if a second or more is left; with less than a second left it gives the tool
-- a minute.
pub request_for_lem :
    (tool input : Text) (ns : ℕ)
    → ns < 8388608000000000
    → let given = timeout_of (request_for tool input (pos ns)) in
      ((1000000000 ≤ ns) × (left : ℕ) × (given ≡ pos left) × (left ≤ ns) × (ns < left + 1000000000))
      ⊎ ((ns < 1000000000) × (given ≡ pos 60000000000))
request_for_lem tool input ns below = elim (dec_lt ns 1000000000) [
  | yes short ↦ inr (short, request_for-subsecond tool input ns short)
  | no long ↦
      let (left, given, most, least) = request_for-IsWithin tool input ns (omega arith) below in
      inl (omega arith, left, given, most, least)
]
