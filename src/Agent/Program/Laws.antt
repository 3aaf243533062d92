-- ===== src/Agent/Program/Laws.antt =====
-- What the process of cmd/emberbox-agent/main.go does with its port, and how it ends.
use mathlib.Core.Path.{subst}
use emberbox.Prelude.{
  ℕ, suc, ◌%◌, ◌^◌, ◌*◌, ◌==◌, Text, none, some, List, [], true, false, ◌≡◌, ◌≢◌, ◌⊎◌, inl, inr,
  refl, arith, Bool-cases,
}
use emberbox.Prelude.Tally.{tally}
use emberbox.Prelude.Int.{ℤ}
use emberbox.Errors.{Result, ok, err}
use emberbox.Context.{Context}
use emberbox.Tool.{Tools}
use emberbox.Agent.{Agent, new_agent}
use emberbox.Agent.Wire.{Json}
use emberbox.Agent.Serve.{Phase, accepting, draining, returned, ServeEvent, serve, listening}
use emberbox.Agent.Serve.Drain.{serve_drains}
use emberbox.Agent.Vsock.{Kernel, VsockListener, listen_vsock}
use emberbox.Agent.Vsock.Laws.{
  Descriptors, SameOpen, Adds, ListenOutcome, listen_vsock-ListenOutcome,
}
use emberbox.Agent.Program.{Flags, Process, exits, serves, main, bound, to_uint32, exit_status}

module _ {K W : Type 0} {kern : Kernel K} (d : Descriptors kern) (tools : Tools W) (flags : Flags)
    (k : K) where
  abbrev pub MainOutcome : Process W × K → Type 0
  MainOutcome o =
      ((o.0 ≡ exits 1) × SameOpen d k o.1)
      ⊎ ((ln : VsockListener) × (o.0 ≡ serves (new_agent tools flags.workdir) ln)
          × (flags.vsock_port ≢ 0)
          × (ln.port ≡ flags.vsock_port % 2 ^ 32)
          × Adds d ln.f.fd k o.1)

  bound-MainOutcome :
      (r : Result VsockListener × K)
      → flags.vsock_port ≢ 0
      → ListenOutcome d (to_uint32 flags.vsock_port) k r
      → MainOutcome (bound kern (new_agent tools flags.workdir) r)
  bound-MainOutcome (err e, k') p (inl (_, _, same)) = inl (refl, same)
  bound-MainOutcome (err e, k') p (inr (l, bad, _, _, _)) = cc
  bound-MainOutcome (ok ln, k') p (inl (x, bad, _)) = cc
  bound-MainOutcome (ok ln, k') p (inr (l, same, port, adds, _)) =
      let it : l ≡ ln = cc in
      inr (
        ln,
        refl,
        p,
        subst (λ x. x.port ≡ to_uint32 flags.vsock_port) it port,
        subst (λ x. Adds d x.f.fd k k') it adds,
      )

  -- The process ends with status 1 and opens no descriptor, or it serves with its tools on one new
  -- descriptor, at the port that its flag gives modulo 2^32.
  pub main-MainOutcome : MainOutcome (main kern tools flags k)
  unfolding main
  main-MainOutcome = elim (Bool-cases (flags.vsock_port == 0)) [
    | inl none_given ↦ rw none_given (inl (refl, λ j. refl))
    | inr given ↦ rw given (
        bound-MainOutcome _ (ground arith)
          (listen_vsock-ListenOutcome d (to_uint32 flags.vsock_port) k))
  ]

module _ {K W : Type 0} (kern : Kernel K) (tools : Tools W) where
  -- A port that is a multiple of 2^32 and not zero passes the check, and the process does all that
  -- it would do if it asked for port 0.
  main-port_zero :
      (n : ℕ) (workdir : Text) (k : K)
      → main kern tools (record { vsock_port = suc n * 2 ^ 32; workdir = workdir }) k
        ≡ bound kern (new_agent tools workdir) (listen_vsock kern 0 k)
  unfolding main
  main-port_zero n workdir k =
      let given : (suc n * 2 ^ 32 == 0) ≡ false = ground arith in
      let none_left : suc n * 2 ^ 32 % 2 ^ 32 ≡ 0 = omega arith in rw (given, none_left) refl

status_zero : (p : Phase) → exit_status p ≡ some 0 → p ≡ returned none
unfolding exit_status
status_zero accepting e = cc
status_zero draining e = cc
status_zero (returned none) e = refl
status_zero (returned (some x)) e = ground arith

module _ {W : Type 0} (j : Json) (now : W → ℤ) (a : Agent W) (ctx : Context) where
  -- The process ends with status 0 only after a signal has ended its context and every connection
  -- that it accepted has been handled, each exactly once.
  exit_status_lem :
      (w : W) (es : List ServeEvent)
      → let s = serve j now a ctx (listening j now a ctx w) es in
        exit_status s.phase ≡ some 0
        → (s.cancelled ≡ true)
          × (s.open_conns ≡ [])
          × ((t : Text) → tally t s.accepted ≡ tally t s.handled)
  exit_status_lem w es e = serve_drains j now a ctx w es (status_zero _ e)
