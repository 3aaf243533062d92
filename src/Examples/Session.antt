-- ===== src/Examples/Session.antt =====
-- How the programs under examples/ use a pool, one call after the other: a monad over what they
-- print, the pool, and the world of its backend. An error is a panic.
pub mod Laws
use emberbox.Prelude.{Text, ◌++◌, ℕ}
use emberbox.Prelude.Int.{ℤ}
use emberbox.Errors.{Result, ok, err, Error}
use emberbox.Context.{background}
use emberbox.Sandbox.{Backend, AllocRequest, ExecResult}
use emberbox.Sandbox.Pool.Sections.{Pool, status}
use emberbox.Sandbox.Pool.Methods.{allocate, execute, release, shutdown}

pub record Session (B : Backend) : Type 0 where
  pub out : Text
  pub pool : Pool B
  pub world : B.World

abbrev pub Run : Backend → Type 0 → Type 0
Run B A = Session B → Result A × Session B

module _ {B : Backend} where
  abbrev pub after {κ} :
      {A : Type 0} {C : Type κ}
      → Result A × Session B
      → (A → Session B → C)
      → (Error → Session B → C)
      → C
  after (ok a, s) good bad = good a s
  after (err e, s) good bad = bad e s

  infixl 5 ◌>>=◌ ◌>>◌
  abbrev pub ◌>>=◌ : {A C : Type 0} → Run B A → (A → Run B C) → Run B C
  (m >>= f) s = after (m s) f (λ e s'. (err e, s'))

  abbrev pub ◌>>◌ : {C : Type 0} → Run B (Unit {0}) → Run B C → Run B C
  m >> k = m >>= λ _. k

  abbrev pub print : Text → Run B (Unit {0})
  print line s = (ok tt, record s { out = s.out ++ line })

  abbrev pub done : {A : Type 0} → A → Run B A
  done a s = (ok a, s)

  -- The methods of the pool, under context.Background(). `now` and `elapsed` are the clock's.
  abbrev pub do_allocate : AllocRequest → Run B Text
  do_allocate req s =
      let o = allocate B s.pool background req s.world in
      (o.result, record s { pool = o.pool; world = o.world })

  abbrev pub do_execute : ℤ → ℤ → Text → Text → Text → Run B ExecResult
  do_execute now elapsed i tool input s =
      let (r, w) = execute B s.pool background now elapsed i tool input s.world in
      (r, record s { world = w })

  abbrev pub do_release : Text → Run B (Unit {0})
  do_release i s =
      let (p, w) = release B s.pool background i s.world in
      (ok tt, record s { pool = p; world = w })

  abbrev pub do_status : Run B (ℕ × ℕ)
  do_status s = (ok (status B s.pool), s)

  abbrev pub deferred_after :
      {A : Type 0} → Run B (Unit {0}) → Result A × Session B → Result A × Session B
  deferred_after last (r, s) = (r, (last s).1)

  -- A deferred call, which a panic runs too.
  abbrev pub deferred : {A : Type 0} → Run B (Unit {0}) → Run B A → Run B A
  deferred last m s = deferred_after last (m s)

  -- pool.Shutdown(context.Background()).
  abbrev pub do_shutdown : Run B (Unit {0})
  do_shutdown s =
      let (p, w) = shutdown B s.pool background s.world in (ok tt, record s { pool = p; world = w })
