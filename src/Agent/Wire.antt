-- ===== src/Agent/Wire.antt =====
-- The JSON envelopes of agent/agent.go, which sandbox/agentclient.go repeats, and what the code
-- relies on of encoding/json.
use emberbox.Prelude.{Text, Bool, ◌≡◌}
use emberbox.Prelude.Int.{ℤ}
use emberbox.Errors.{Result, ok}

pub record Request : Type 0 where
  pub tool_name : Text
  pub input : Text
  pub timeout_seconds : ℤ

pub record Response : Type 0 where
  pub output : Text
  pub is_error : Bool
  pub duration_ms : ℤ

-- agentRequest and agentResponse have the same fields under the same keys.
abbrev pub AgentRequest : Type 0
AgentRequest = Request

abbrev pub AgentResponse : Type 0
AgentResponse = Response

-- What Encode writes, and what Decode makes of the bytes that a peer sent.
pub record Json : Type 0 where
  pub encode_request : AgentRequest → Result Text
  pub decode_request : Text → Result Request
  pub encode_response : Response → Result Text
  pub decode_response : Text → Result AgentResponse

-- Encode compacts a raw message, writes <, > and & and the line separators U+2028 and U+2029 in it
-- as escapes, and replaces bytes of a string that are not UTF-8. So a round trip is promised for
-- UTF-8 text, and for input that Encode leaves as it is: compact, and with none of these characters.
pub record RoundTrips (j : Json) : Type 1 where
  pub IsCompact : Text → Type 0
  pub IsUtf8 : Text → Type 0
  pub request :
      (r : Request)
      → IsUtf8 r.tool_name
      → IsCompact r.input
      → (bytes : Text) × (j.encode_request r ≡ ok bytes) × (j.decode_request bytes ≡ ok r)
  pub response :
      (r : Response)
      → IsUtf8 r.output
      → (bytes : Text) × (j.encode_response r ≡ ok bytes) × (j.decode_response bytes ≡ ok r)
