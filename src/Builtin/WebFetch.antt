-- ===== src/Builtin/WebFetch.antt =====
-- tools/webfetch.go.
use emberbox.Prelude.{
  length, leb, Text, text, ℕ, ◌++◌, ◌∷◌, Option, none, some, is_empty, take, itoa, if◌then◌else◌,
}
use emberbox.Prelude.Dict.{Dict}
use emberbox.Errors.{Result, ok, err, Error, message}
use emberbox.Context.{Context}
use emberbox.Tool.{Tool, ToolResult}
use emberbox.Builtin.{parse_input, require_field, err_result, good_result}

pub record WebFetchInput : Type 0 where
  pub url : Text
  pub method : Text
  pub headers : Dict Text

-- A response: its status, the bytes that its body delivers, and the error that ends them, if the
-- end of the body does not.
pub record Reply : Type 0 where
  pub status : ℕ
  pub body : Text
  pub broken : Option Error

-- net/http: NewRequestWithContext, and Do of a client with a timeout of 30 seconds.
pub record Web (W : Type 0) : Type 0 where
  pub new_request : Text → Text → Option Error
  pub send : Context → Text → Text → Dict Text → W → Result Reply × W

-- 1<<20.
unfoldable pub max_body : ℕ
max_body = 1048576

-- ReadAll of a reader that is limited to the first `max_body` bytes: an error that comes after
-- them is not met.
unfoldable pub read_limited : Reply → Result Text
read_limited r = elim r.broken [
  | none ↦ ok (take max_body r.body)
  | some e ↦ if leb max_body (length r.body) then ok (take max_body r.body) else err e
]

abbrev page : ℕ → Result Text → ToolResult
page status (err e) = err_result (text "read error: " ++ message e)
page status (ok body) = good_result (text "HTTP " ++ (itoa status ++ (b'\n' ∷ b'\n' ∷ body)))

module _ {W : Type 0} (web : Web W) where
  abbrev after_send : Result Reply × W → ToolResult × W
  after_send (err e, w) = (err_result (text "fetch error: " ++ message e), w)
  after_send (ok r, w) = (page r.status (read_limited r), w)

  abbrev after_request : Context → Text → WebFetchInput → Option Error → W → ToolResult × W
  after_request ctx method inp (some e) w = (err_result (text "invalid request: " ++ message e), w)
  after_request ctx method inp none w = after_send (web.send ctx method inp.url inp.headers w)

  abbrev fetch_checked : Context → WebFetchInput → Option ToolResult → W → ToolResult × W
  fetch_checked ctx inp (some refused) w = (refused, w)
  fetch_checked ctx inp none w =
      let method = if is_empty inp.method then text "GET" else inp.method in
      after_request ctx method inp (web.new_request method inp.url) w

  unfoldable pub web_fetch : Context → WebFetchInput → W → ToolResult × W
  web_fetch ctx inp w = fetch_checked ctx inp (require_field (text "url") inp.url) w

  abbrev on_fetch : Context → Result WebFetchInput → W → Result ToolResult × W
  on_fetch ctx (err e) w = (err e, w)
  on_fetch ctx (ok inp) w = let (r, w') = web_fetch ctx inp w in (ok r, w')

  unfoldable pub web_fetch_tool : (Text → Result WebFetchInput) → Tool W
  web_fetch_tool unmarshal = record {
    name = text "web_fetch";
    execute = λ ctx input w. on_fetch ctx (parse_input (unmarshal input)) w;
  }
