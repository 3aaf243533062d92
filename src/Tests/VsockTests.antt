-- ===== src/Tests/VsockTests.antt =====
-- The vsock listener, Serve and the agent's process at concrete inputs.
use emberbox.Prelude.{List, itoa, text, [], ◌∷◌, ◌≡◌, refl, some, false, arith}
use emberbox.Errors.{ok, err, plain, wrap, sentinel, eagain}
use emberbox.Context.{background}
use emberbox.Agent.Vsock.{listen_vsock, accept, conn_of, string}
use emberbox.Agent.Vsock.Laws.{ListenOutcome, listen_vsock-ListenOutcome}
use emberbox.Agent.Vsock.Accepting.{Comes, at_once, woken, AcceptOutcome, accept_lem}
use emberbox.Agent.Serve.{
  runs, cancels, ServeEvent, accepts, accept_fails, serve, listening, returned,
}
use emberbox.Agent.Serve.Stops.{first_failure, taken, serve_stops}
use emberbox.Agent.Program.{main, Flags}
use emberbox.Agent.Program.Laws.{MainOutcome, main-MainOutcome}
use emberbox.Tests.ToyKernel.{toy_kernel, toy_kernel_descriptors, booted, toy_listener, take_next}
use emberbox.Tests.Toys.{toy_json, toy_clock, toy_agent, toy_tools}

-- A port that the kernel refuses: the socket is closed again.
refused_port :
    (listen_vsock toy_kernel 0 (booted 0)).0
    ≡ err (wrap (text "vsock bind: ") (plain (text "invalid argument")))
unfolding listen_vsock
refused_port = refl

refused_port_closed : (listen_vsock toy_kernel 0 (booted 0)).1.used 3 ≡ false
unfolding listen_vsock
refused_port_closed = refl

listened : (listen_vsock toy_kernel 10000 (booted 0)).0 ≡ ok toy_listener
unfolding listen_vsock text itoa
listened = refl

address : string (record { cid = 3; port = 10000 }) ≡ text "vsock://3:10000"
unfolding string text itoa
address = refl

listen_vsock-ListenOutcome_example :
    ListenOutcome toy_kernel_descriptors 10000 (booted 0) (listen_vsock toy_kernel 10000 (booted 0))
listen_vsock-ListenOutcome_example =
    listen_vsock-ListenOutcome toy_kernel_descriptors 10000 (booted 0)

-- Two accept4 that would block come before the connection.
abbrev comes_third :
    Comes toy_kernel 3 2
      (booted 2)
      (ok (3, some (record { cid = 2; port = 1024 })))
      (take_next (booted 0))
comes_third =
    woken 1 _ _ _ _ _ (sentinel eagain) refl refl refl
      (woken 0 _ _ _ _ _ (sentinel eagain) refl refl refl (at_once _ _ _ refl tt))

accept_lem_example :
    let c = conn_of toy_kernel toy_listener (ok (3, some (record { cid = 2; port = 1024 }))) in
    (accept toy_kernel 3 toy_listener (booted 2) ≡ some (c, take_next (booted 0)))
    × AcceptOutcome toy_kernel_descriptors toy_listener (booted 2) (some (c, take_next (booted 0)))
accept_lem_example =
    accept_lem toy_kernel_descriptors toy_listener 2 3 (booted 2) (booted 2) (take_next (booted 0))
      (ok (3, some (record { cid = 2; port = 1024 }))) refl refl comes_third (omega arith)

-- One connection, then an Accept that fails for a moment, and one that comes too late.
abbrev interrupted : List ServeEvent
interrupted =
    accepts (b'a' ∷ [])
    ∷ runs 0
    ∷ accept_fails (plain (text "too many open files"))
    ∷ accepts (b'b' ∷ [])
    ∷ cancels
    ∷ []

interrupted-first_failure :
    first_failure false interrupted ≡ some (some (plain (text "too many open files")))
unfolding first_failure
interrupted-first_failure = refl

serve_stops_example :
    let s =
      serve toy_json toy_clock toy_agent background
        (listening toy_json toy_clock toy_agent background 0)
        interrupted in
    (s.phase
      ≡ returned
          (some (wrap (text "emberbox/agent: accept: ") (plain (text "too many open files")))))
    × (s.accepted ≡ (b'a' ∷ []) ∷ [])
unfolding first_failure taken
serve_stops_example = serve_stops toy_json toy_clock toy_agent background 0 interrupted

abbrev flags : Flags
flags = record { vsock_port = 10000; workdir = text "/" }

main-MainOutcome_example :
    MainOutcome toy_kernel_descriptors toy_tools flags
      (booted 0)
      (main toy_kernel toy_tools flags (booted 0))
main-MainOutcome_example = main-MainOutcome toy_kernel_descriptors toy_tools flags (booted 0)
