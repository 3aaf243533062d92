-- ===== src/Examples/Session/Laws.antt =====
-- A session of the programs under examples/ on a pool without warm sandboxes: its one sandbox.
use emberbox.Prelude.{arith, some, Text, [], ◌∷◌, ◌≡◌, refl, ap, text_eq_refl}
use emberbox.Prelude.Dict
use emberbox.Prelude.Int.{ℤ}
use emberbox.Errors.{ok, err}
use emberbox.Context.{background}
use emberbox.Sandbox.{Backend, AllocRequest, ExecResult}
use emberbox.Sandbox.Pool.Sections.{
  handles, take_all, PoolConfig, empty_pool, with_defaults, take_warm, insert_active, find_active,
  remove_active,
}
use emberbox.Sandbox.Pool.Methods.{
  allocate, execute, dispatch, release, shutdown, stamp, exec_context,
}
use emberbox.Examples.Session.{Session, Run, after, ◌>>=◌, do_allocate, do_execute}

module _ {B : Backend} where
  -- A step that succeeds is followed by the rest.
  pub >>=-ok :
      {A C : Type 0} (m : Run B A) (f : A → Run B C) (s : Session B) {s' : Session B} {a : A}
      → m s ≡ (ok a, s')
      → (m >>= f) s ≡ f a s'
  >>=-ok m f s e = ap (λ r. after r f (λ x t. (err x, t))) e

module _ (B : Backend) (cfg : PoolConfig) (out : Text) where
  abbrev pub at_rest : B.World → Session B
  at_rest w = record { out = out; pool = empty_pool B cfg; world = w }

  -- One active sandbox.
  abbrev pub with_one : AllocRequest → B.Handle → B.World → Session B
  with_one req h w = record {
    out = out;
    pool = record {
      cfg = cfg;
      warm = [];
      active = (B.id h, record { handle = h; req = req }) ∷ [];
    };
    world = w;
  }

  pub do_allocate-at_rest :
      (req : AllocRequest) (h : B.Handle) (w w' : B.World)
      → B.boot background (with_defaults cfg req) w ≡ (ok h, w')
      → do_allocate req (at_rest w) ≡ (ok (B.id h), with_one (with_defaults cfg req) h w')
  unfolding allocate empty_pool take_warm insert_active Dict.insert
  do_allocate-at_rest req h w w' e = rw e refl

  pub do_execute-with_one :
      (now elapsed : ℤ) (tool input : Text) (req : AllocRequest) (h : B.Handle) (r : ExecResult)
      (w w' : B.World)
      → B.exec (exec_context B background now (record { handle = h; req = req })) h tool input w
        ≡ (ok r, w')
      → do_execute now elapsed (B.id h) tool input (with_one req h w)
        ≡ (ok (stamp elapsed r), with_one req h w')
  unfolding execute find_active Dict.lookup dispatch
  do_execute-with_one now elapsed tool input req h r w w' e =
      rw (execute, find_active, Dict.lookup, text_eq_refl (B.id h), dispatch, e) refl

  removed :
      (req : AllocRequest) (h : B.Handle) (w : B.World)
      → remove_active B (with_one req h w).pool (B.id h)
        ≡ (some (record { handle = h; req = req }), empty_pool B cfg)
  unfolding remove_active empty_pool Dict.lookup Dict.erase
  removed req h w = ground (arith, text_eq_refl (B.id h))

  pub release-with_one :
      (req : AllocRequest) (h : B.Handle) (w : B.World)
      → release B (with_one req h w).pool background (B.id h) w
        ≡ (empty_pool B cfg, (B.destroy background h w).1)
  unfolding release
  release-with_one req h w =
      rw (release, removed req h w)
        (ap (λ r. (r.1, (B.destroy background h w).1)) (removed req h w))

  pub shutdown-at_rest :
      (w : B.World) → shutdown B (empty_pool B cfg) background w ≡ (empty_pool B cfg, w)
  unfolding shutdown empty_pool take_all handles
  shutdown-at_rest w = refl
