-- ===== src/Lib.antt =====
-- Emberbox: sandboxes for the tool calls of LLM agents.
--
-- The program is a Go library. A host-side pool (sandbox/sandbox.go) allocates sandboxes from a
-- backend (sandbox/backend.go), keeps some booted ahead, runs tool calls in them and tears them
-- down. The host backend (sandbox/host.go) runs a tool in the process itself. The Firecracker backend
-- (sandbox/firecracker.go) starts one microVM per sandbox, configures it over the REST API of the
-- VMM (sandbox/firecracker_api.go), and reaches the agent in it over a vsock socket
-- (sandbox/agentclient.go). The agent (agent/agent.go) reads one JSON request per connection, runs
-- the tool that it names from a registry (tool/tool.go) and writes one JSON response; it listens on
-- AF_VSOCK (agent/vsock_linux.go), and cmd/emberbox-agent/main.go is its process. The built-in tools
-- are in tools/. The programs in examples/ use the pool, one of them over a backend of its own.
--
-- How the files correspond to the code:
--
-- Prelude: bytes, texts, lists, integers with int64's wrap-around, maps as association lists, counts.
-- Errors: error values, errors.Is and the two forms of fmt.Errorf that the code uses.
-- Context: context.Context as a deadline and the variables under envContextKey.
-- Tool: tool/tool.go; Tool/Registry what the registry holds, Listing its List; Tool/Answer the
--   specification of one tool call, which the host backend and the agent are both held to.
-- Sandbox: sandbox/types.go and the interface of sandbox/backend.go, with the contract on identities.
-- Sandbox/Handles: the handles of the backends and assertHandle.
-- Sandbox/Pool: sandbox/sandbox.go. Sections has the state and the code of each critical section,
--   Methods each method run without interruption, Threads the goroutines between critical sections,
--   Ownership and Histories the invariant under every interleaving, Alone the agreement of the two
--   views, Calls the methods one by one, Collisions an identity that is issued twice, WarmPool and
--   Shutdown the sizes and the draining, Wrapped the pool over a backend that wraps another
--   (Sandbox/Wrapping), Retirement what has become of the sandboxes that were destroyed, over a
--   backend with the contract of Sandbox/Retiring, Progress the steps that a goroutine makes at most,
--   Targets the sandbox that an Execute calls the backend for, Lifecycle the stages of a sandbox's
--   life, a specification that forgets which goroutine or list has it.
-- Sandbox/New: New and selectBackend of sandbox/sandbox.go; Pools what New returns.
-- Sandbox/Host: sandbox/host.go; Identities its part of the contract on identities,
--   Deadlines the time that a bash command gets through a pool.
-- Sandbox/Polling: the loop that waitForSocket and waitForVsockAgent share.
-- Sandbox/AgentClient: sandbox/agentclient.go; Probe its readiness probe; EndToEnd the client and the
--   agent together; Buffered the connection behind a bufio.Reader, on a socket that returns its bytes
--   in reads of any sizes.
-- Sandbox/FirecrackerApi: sandbox/firecracker_api.go.
-- Sandbox/Firecracker: sandbox/firecracker.go. The configuration here, Machine the process of a VM
--   and its destruction, Boot the boot sequence and the backend, Config, Laws and Order its theorems,
--   EndToEnd a tool call from the backend to the agent and back, Keeping what Boot, Exec and Destroy
--   leave as it is, Leaks what Boot leaves on the host, Identities the contract on identities,
--   Retirement the processes of the microVMs of a pool.
-- Agent: agent/agent.go; Wire the JSON envelopes, Serve the accept loop and its goroutines.
-- Agent/Vsock: agent/vsock_linux.go and agent/vsock_other.go; Laws ListenVsock, Accepting Accept,
--   Conn the methods that are passed on to an os.File.
-- Agent/Program: cmd/emberbox-agent/main.go.
-- Builtin: tools/parse.go; FileEdit tools/fileedit.go; FileRead tools/fileread.go; FileWrite
--   tools/filewrite.go and tools/glob.go; Commands tools/bash.go and tools/grep.go, with CommandLine
--   what rg reads; WebFetch tools/webfetch.go; Defaults tools/defaults.go; RoundTrip the file tools
--   one after the other.
-- Examples/Audit: examples/custombackend/main.go; Counters and Transparency its backend under a pool,
--   Program what it prints.
-- Examples/Session: the calls of a pool in sequence, which the programs are written in.
-- Examples/HostPrograms: examples/lifecycle/main.go and examples/customtool/main.go, whose tool is
--   Examples/Greet.
-- Examples/Firecracker: examples/firecrackerbackend/main.go.
-- Examples/Programs: the three programs above with their registries and their calls of New.
-- Examples/GuestAgent: examples/firecrackerbackend/agent/main.go.
-- Examples/Fake: sandbox/sandboxtest/fake.go.
-- Tests: concrete surroundings, and the theorems at concrete inputs.
--
-- How state and effects are modelled: a method takes its state and the world and returns both. The
-- world is whatever a backend or a tool may change; operating system, sockets, net/http,
-- encoding/json, uuid and the clock are records of functions on it, and the laws that a theorem
-- needs of them are records too (IssuesFreshIds, FreshPrefixes, RoundTrips, Reaches, Accepts,
-- Stops, Logs, Descriptors, Stores, CommandLine, Retires, IsKept, FreshVms, Reaps, Spawns). The
-- pool's mutex makes a critical section one step; between them any other goroutine may take a step,
-- and the theorems on histories hold for every sequence of such steps. Two calls on one microVM
-- handle are sequential: its Once is a map from identities to results.
--
-- Loops are structural: over the number of sandboxes to boot, over the bytes or lines of a text, and
-- for the polling loops over the wakes of their select. Two recursions run on fuel: itoa, whose n + 1
-- rounds are enough since each divides the number by ten, and the loop of Accept, whose fuel is the
-- number of calls of accept4; any fuel above the number of calls that would block is enough.
--
-- Not modelled: logging; the interval of the tickers; flag parsing and the delivery of signals; the
-- cleanup that NewFake registers. The world of the agent's process is split in two: the descriptors
-- that ListenVsock opens, and what Serve and the tools change. Go's float64 in timeout.Seconds() is
-- an integer division, which agrees below 2^23 seconds.
pub mod Prelude
pub mod Errors
pub mod Context
pub mod Tool
pub mod Sandbox
pub mod Agent
pub mod Examples
pub mod Tests
pub mod Builtin
