-- ===== src/Tests/Toys.antt =====
-- Small surroundings for the code: a tool, a host, an agent behind a socket, and a machine.
use emberbox.Prelude.{
  Text, ℕ, zero, suc, ◌*◌, ◌++◌, ◌∷◌, [], take, drop, length, Bool, true, false, Option, none, some,
  ◌≡◌, refl, ap,
}
use emberbox.Prelude.Int.{ℤ, pos, negsuc, pos_part, neg_part}
use emberbox.Errors.{Result, ok, err, sentinel, eof}
use emberbox.Context.{background}
use emberbox.Tool.{Tool, Tools}
use emberbox.Agent.{Agent, handle_connection}
use emberbox.Agent.Wire.{Json, Request, Response, RoundTrips}
use emberbox.Sandbox.Host.{HostWorld, HostBackend}
use emberbox.Sandbox.AgentClient.{Transport}
use emberbox.Sandbox.AgentClient.EndToEnd.{Reaches}

-- A tool that repeats its input and counts its calls.
abbrev pub echo : Tool ℕ
echo = record {
  name = b'e' ∷ [];
  execute = λ ctx input w. (ok (record { content = input; is_error = false }), suc w);
}

abbrev pub toy_tools : Tools ℕ
toy_tools = (b'e' ∷ [], echo) ∷ []

abbrev pub toy_clock : ℕ → ℤ
toy_clock w = pos (w * 1000000000)

abbrev pub toy_world : HostWorld ℕ
toy_world = record { new_uuid = λ w. (w ∷ [], suc w); now = toy_clock }

abbrev pub toy_host : HostBackend ℕ
toy_host = record { tools = toy_tools; workdir = [] }

abbrev pub toy_agent : Agent ℕ
toy_agent = record { tools = toy_tools; workdir = [] }

-- A codec: the lengths and the numbers in front, then the texts.
abbrev of_parts : ℕ → ℕ → ℤ
of_parts p zero = pos p
of_parts p (suc n) = negsuc n

abbrev of_bit : ℕ → Bool
of_bit zero = false
of_bit (suc n) = true

abbrev to_bit : Bool → ℕ
to_bit false = 0
to_bit true = 1

abbrev read_request : Text → Result Request
read_request (l ∷ p ∷ n ∷ s) =
    ok (record { tool_name = take l s; input = drop l s; timeout_seconds = of_parts p n })
read_request s = err (sentinel eof)

abbrev read_response : Text → Result Response
read_response (b ∷ p ∷ n ∷ s) =
    ok (record { output = s; is_error = of_bit b; duration_ms = of_parts p n })
read_response s = err (sentinel eof)

abbrev pub toy_json : Json
toy_json = record {
  encode_request = λ r. ok (
      length r.tool_name ∷ pos_part r.timeout_seconds ∷ neg_part r.timeout_seconds ∷ r.tool_name
      ++ r.input);
  decode_request = read_request;
  encode_response =
      λ r. ok (to_bit r.is_error ∷ pos_part r.duration_ms ∷ neg_part r.duration_ms ∷ r.output);
  decode_response = read_response;
}

pub take-append : (s t : Text) → take (length s) (s ++ t) ≡ s
take-append [] t = refl
take-append (a ∷ s) t = ap (λ r. a ∷ r) (take-append s t)

pub drop-append : (s t : Text) → drop (length s) (s ++ t) ≡ t
drop-append [] t = refl
drop-append (a ∷ s) t = drop-append s t

pub parts_back : (z : ℤ) → of_parts (pos_part z) (neg_part z) ≡ z
parts_back (pos n) = refl
parts_back (negsuc n) = refl

pub bit_back : (b : Bool) → of_bit (to_bit b) ≡ b
bit_back true = refl
bit_back false = refl

abbrev pub toy_json-RoundTrips : RoundTrips toy_json
toy_json-RoundTrips = record {
  IsCompact = λ s. Unit;
  IsUtf8 = λ s. Unit;
  request = λ r _ _. (
    _,
    refl,
    rw
        (
          take-append r.tool_name r.input,
          drop-append r.tool_name r.input,
          parts_back r.timeout_seconds,
        )
        refl,
  );
  response = λ r _. (_, refl, rw (bit_back r.is_error, parts_back r.duration_ms) refl);
}

-- A socket whose peer is the agent.
pub record Link : Type 0 where
  pub sent : Text
  pub guest : ℕ

abbrev peer : Text → ℕ → Option Text × ℕ
peer = handle_connection toy_json toy_clock toy_agent background

abbrev delivered : Link → Option Text × ℕ → Result Text × Link
delivered l (none, g) = (err (sentinel eof), record l { guest = g })
delivered l (some bytes, g) = (ok bytes, record l { guest = g })

abbrev pub toy_transport : Transport Link
toy_transport = record {
  Conn = Unit;
  dial = λ ctx limit path w. (ok tt, w);
  set_deadline = λ c d w. w;
  send = λ c bytes w. (none, record w { sent = bytes });
  read_line = λ c w. (ok (b'O' ∷ b'K' ∷ b' ' ∷ b'1' ∷ b'\n' ∷ []), w);
  receive = λ c w. delivered w (peer w.sent w.guest);
  close = λ c w. w;
}

pub toy_transport-Reaches :
    Reaches toy_transport (handle_connection toy_json toy_clock toy_agent background) (λ l. l.guest)
toy_transport-Reaches = record {
  limit_keeps = λ c d w. refl;
  close_keeps = λ c w. refl;
  send_receive = λ c bytes reply w sent e. (rw e refl, rw e refl);
}
