-- ===== src/Errors.antt =====
-- Go's error values, as far as the code builds them and callers take them apart: `errors.New`,
-- `fmt.Errorf` with one `%w`, and the custom type of sandbox/firecracker_api.go.
use emberbox.Prelude.{refl, inl, inr, ◌⊎◌, ℕ, ◌≡◌, [], ◌++◌, Text, text, itoa}

-- The package variables that callers compare against, and the standard library's that the code
-- meets.
pub data Sentinel : Type 0 where
  pool_exhausted vm_not_found vm_timeout tool_not_found : Sentinel
  eof deadline_exceeded canceled eagain : Sentinel

Sentinel-discrete : Discrete Sentinel
Sentinel-discrete = hlevel

-- `wrapped a e b` is `fmt.Errorf("<a>%w<b>", e)`; an error formatted with `%s` is plain text.
pub data Error : Type 0 where
  plain : Text → Error
  sentinel : Sentinel → Error
  wrapped : Text → Error → Text → Error
  api_error : ℕ → Text → Error

pub data Result {ℓ} (A : Type ℓ) : Type ℓ where
  ok : A → Result A
  err : Error → Result A

abbrev pub map_result {ℓ κ} : {A : Type ℓ} {B : Type κ} → (A → B) → Result A → Result B
map_result f (ok a) = ok (f a)
map_result f (err e) = err e

pub Result-cases {ℓ} :
    {A : Type ℓ} (r : Result A) → ((a : A) × (r ≡ ok a)) ⊎ ((e : Error) × (r ≡ err e))
Result-cases (ok a) = inl (a, refl)
Result-cases (err e) = inr (e, refl)

sentinel_message : Sentinel → Text
sentinel_message pool_exhausted = text "emberbox/sandbox: vm pool exhausted"
sentinel_message vm_not_found = text "emberbox/sandbox: vm not found"
sentinel_message vm_timeout = text "emberbox/sandbox: vm execution timed out"
sentinel_message tool_not_found = text "emberbox/tool: tool not found"
sentinel_message eof = text "EOF"
sentinel_message deadline_exceeded = text "context deadline exceeded"
sentinel_message canceled = text "context canceled"
sentinel_message eagain = text "resource temporarily unavailable"

-- firecrackerAPIError.Error.
abbrev pub api_error_text : ℕ → Text → Text
api_error_text status body =
    text "firecracker api: status=" ++ (itoa status ++ (text " body=" ++ body))

-- err.Error().
unfoldable pub message : Error → Text
unfolding sentinel_message
message (plain s) = s
message (sentinel s) = sentinel_message s
message (wrapped a e b) = a ++ (message e ++ b)
message (api_error status body) = api_error_text status body

-- The sentinel that an error is or wraps, if any: what errors.Is walks to.
abbrev pub root : Error → Error
root (wrapped _ e _) = root e
root (plain s) = plain s
root (sentinel s) = sentinel s
root (api_error status body) = api_error status body

-- errors.Is(e, s) is true exactly when this holds.
abbrev pub Is : Error → Sentinel → Type 0
Is e s = root e ≡ sentinel s

-- fmt.Errorf("<a>%w", e).
abbrev pub wrap : Text → Error → Error
wrap a e = wrapped a e []
