-- ===== src/Examples/Firecracker/Laws.antt =====
-- examples/firecrackerbackend/main.go: its check of the environment, and that no path leaves a
-- microVM.
use emberbox.Prelude.{Text, text, ◌++◌, [], ◌≡◌, ◌⊎◌, inl, inr, refl, ap, ◌∙◌, none, List-cases}
use emberbox.Prelude.Int.{ℤ}
use emberbox.Errors.{Result, ok, err}
use emberbox.Context.{background}
use emberbox.Sandbox.{ExecResult, Backend, AllocRequest}
use emberbox.Sandbox.Firecracker.{FirecrackerConfig, validate_config, new_firecracker_backend}
use emberbox.Sandbox.Firecracker.Config.{validate_config_iff}
use emberbox.Sandbox.Pool.Sections.{PoolConfig, with_defaults}
use emberbox.Examples.Session.{
  ◌>>=◌, ◌>>◌, print, after, do_allocate, after, Session, Run, do_execute, deferred, deferred_after,
  do_shutdown, do_release,
}
use emberbox.Examples.Session.Laws.{
  >>=-ok, at_rest, with_one, do_allocate-at_rest, release-with_one, shutdown-at_rest,
}
use emberbox.Examples.HostPrograms.{no_request, line_end}
use emberbox.Examples.Firecracker.{
  tool_call, greet_line, bash_line, chosen, Variables, exits, goes_on, configure, calls, session,
}

-- The program ends with status 2 exactly when one of the two paths is missing; else the
-- configuration that it goes on with passes the check that Boot makes.
pub configure_lem :
    (temp_dir : Text) (v : Variables)
    → ((configure temp_dir v ≡ exits 2) × ((v.kernel ≡ []) ⊎ (v.rootfs ≡ [])))
      ⊎ ((cfg : FirecrackerConfig) × (configure temp_dir v ≡ goes_on cfg)
          × (validate_config cfg ≡ none))
unfolding configure new_firecracker_backend
configure_lem temp_dir v = elim (List-cases v.kernel) [
  | inl none_given ↦ inl (rw none_given refl, inl none_given)
  | inr (c, cs, k) ↦ elim (List-cases v.rootfs) [
    | inl none_given ↦ inl (rw (k, none_given) refl, inr none_given)
    | inr (d, ds, r) ↦ inr (
      chosen temp_dir v,
      rw (k, r) refl,
      (validate_config_iff (chosen temp_dir v)).1 ((λ e. cc), (λ e. cc)),
    )
  ]
]

module _ {B : Backend} where
  -- A run that leaves the pool as it is.
  abbrev KeepsPool : {A : Type 0} → Run B A → Type 0
  KeepsPool m = (s : Session B) → (m s).1.pool ≡ s.pool

  after-KeepsPool :
      {A C : Type 0} (o : Result A × Session B) (f : A → Run B C)
      → ((a : A) → KeepsPool (f a))
      → (after o f (λ e s. (err e, s))).1.pool ≡ o.1.pool
  after-KeepsPool (ok a, s) f kept = kept a s
  after-KeepsPool (err e, s) f kept = refl

  >>=-KeepsPool :
      {A C : Type 0} (m : Run B A) (f : A → Run B C)
      → KeepsPool m
      → ((a : A) → KeepsPool (f a))
      → KeepsPool (m >>= f)
  >>=-KeepsPool m f first kept s = after-KeepsPool (m s) f kept ∙ first s

  tool_call-KeepsPool :
      (clock : ℤ × ℤ) (id tool input : Text) (line : ExecResult → Text)
      → KeepsPool (tool_call clock id tool input line)
  tool_call-KeepsPool clock id tool input line =
      >>=-KeepsPool (do_execute clock.0 clock.1 id tool input) (λ res. print (line res)) (λ s. refl)
        (λ res s. refl)

module _ (B : Backend) (cfg : PoolConfig) (first second : ℤ × ℤ) where
  abbrev pub greeting : Text → Run B (Unit {0})
  greeting id = print (text "microVM booted: " ++ (id ++ line_end)) >> calls first second id

  greeting-KeepsPool : (id : Text) → KeepsPool (greeting id)
  greeting-KeepsPool id =
      >>=-KeepsPool (print (text "microVM booted: " ++ (id ++ line_end)))
        (λ _. calls first second id) (λ s. refl)
        (λ _.
          >>=-KeepsPool
            (tool_call first id (text "greet") (text "{\"name\":\"emberbox\"}") greet_line)
            (λ _. tool_call second id (text "bash") (text "{\"command\":\"uname -a\"}") bash_line)
            (tool_call-KeepsPool first id (text "greet") _ greet_line)
            (λ _. tool_call-KeepsPool second id (text "bash") _ bash_line))

  -- The deferred Release and Shutdown, whatever came before them.
  ends :
      (req : AllocRequest) (h : B.Handle) (w : B.World) (o : Result (Unit {0}) × Session B)
      → o.1.pool ≡ (with_one B cfg [] req h w).pool
      → deferred_after do_shutdown (deferred_after (do_release (B.id h)) o)
        ≡ (o.0, at_rest B cfg o.1.out (B.destroy background h o.1.world).1)
  ends req h w o same =
      rw (same, release-with_one B cfg [] req h o.1.world, shutdown-at_rest B cfg []) refl

  -- Once a microVM is booted, whatever its two tool calls return, the program ends with that
  -- microVM destroyed, once, and with an empty pool.
  session_lem :
      (h : B.Handle) (w w' : B.World)
      → B.boot background (with_defaults cfg no_request) w ≡ (ok h, w')
      → (r : Result (Unit {0})) × (out : Text) × (w'' : B.World) × (session first second
            (at_rest B cfg [] w)
          ≡ (r, at_rest B cfg out (B.destroy background h w'').1))
  unfolding session
  session_lem h w w' boots =
      let req = with_defaults cfg no_request in
      let s = with_one B cfg [] req h w' in
      let o = greeting (B.id h) s in
      (
        o.0,
        o.1.out,
        o.1.world,
        ap (deferred_after do_shutdown) (
              >>=-ok (do_allocate no_request) (λ id. deferred (do_release id) (greeting id))
                (at_rest B cfg [] w) (do_allocate-at_rest B cfg [] no_request h w w' boots))
            ∙ ends req h w' o (greeting-KeepsPool (B.id h) s),
      )
