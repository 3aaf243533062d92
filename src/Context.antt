-- ===== src/Context.antt =====
-- context.Context, as far as the code uses it: a deadline in nanoseconds, and the value that
-- sandbox/host.go stores under `envContextKey`.
use emberbox.Prelude.{◌≡◌, refl, Option, none, some, Text, if◌then◌else◌, arith}
use emberbox.Prelude.Int.{ℤ, ◌+ℤ◌, ◌≤ℤ◌, ltb_ℤ}
use emberbox.Prelude.Dict.{Dict}

pub record Context : Type 0 where
  pub deadline : Option ℤ
  pub env : Option (Dict Text)

abbrev pub background : Context
background = record { deadline = none; env = none }

-- The earlier of a parent's deadline and a new one.
abbrev pub earlier : Option ℤ → ℤ → ℤ
earlier none d = d
earlier (some cur) d = if ltb_ℤ cur d then cur else d

-- context.WithTimeout(ctx, timeout) at the time `now`.
unfoldable pub with_timeout : Context → ℤ → ℤ → Context
with_timeout ctx now timeout = record ctx {
  deadline = some (earlier ctx.deadline (now +ℤ timeout));
}

-- context.WithValue(ctx, envContextKey{}, env).
unfoldable pub with_env : Context → Dict Text → Context
with_env ctx env = record ctx { env = some env }

-- A deadline is set and is at most `d`.
abbrev pub EndsBy : Context → ℤ → Type 0
EndsBy ctx d = (e : ℤ) × (ctx.deadline ≡ some e) × (e ≤ℤ d)

pub with_timeout-EndsBy :
    (ctx : Context) (now timeout : ℤ) → EndsBy (with_timeout ctx now timeout) (now +ℤ timeout)
unfolding with_timeout
with_timeout-EndsBy ctx now timeout = (earlier ctx.deadline (now +ℤ timeout), refl, ground arith)

-- A deadline of the parent is never put off.
pub with_timeout_keeps :
    (ctx : Context) (now timeout d : ℤ) → EndsBy ctx d → EndsBy (with_timeout ctx now timeout) d
unfolding with_timeout
with_timeout_keeps ctx now timeout d (e, has, before) =
    (earlier ctx.deadline (now +ℤ timeout), refl, ground arith)
