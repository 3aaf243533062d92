-- ===== src/Tests/EndTests.antt =====
-- A whole Firecracker backend whose guest is the toy agent, the default tools, and the choice of a
-- backend.
use emberbox.Tests.ToyTools.{no_inputs, no_commands}
use emberbox.Tool.Registry.Listing.{named, at_most_one, list-register_all}
use emberbox.Tool.Registry.{register_all, last_named}
use emberbox.Prelude.{
  List, none, ◌∷◌, [], ℕ, Text, text, ℕ, ◌++◌, ◌∷◌, [], none, some, true, ◌≡◌, refl, trim_right,
  has_prefix,
}
use emberbox.Prelude.Int.{pos, ◌-ℤ◌}
use emberbox.Errors.{ok, sentinel, deadline_exceeded}
use emberbox.Context.{Context, background, with_timeout}
use emberbox.Tool.{Tool, get, list, new_registry, get}
use emberbox.Tool.Answer.{answer}
use emberbox.Agent.{timeout_of}
use emberbox.Sandbox.{ExecResult}
use emberbox.Sandbox.Handles.{of_firecracker}
use emberbox.Sandbox.Host.Laws.{answer_of}
use emberbox.Sandbox.AgentClient.{request_for, accepts, is_newline}
use emberbox.Sandbox.FirecrackerApi.{Http}
use emberbox.Sandbox.Firecracker.Machine.{Machine, Vms}
use emberbox.Sandbox.Firecracker.Boot.{Host, exec}
use emberbox.Sandbox.Firecracker.EndToEnd.{Accepts, exec-answer_in_guest}
use emberbox.Sandbox.New.{Config, mode_firecracker}
use emberbox.Builtin.Commands.{bash_tool, grep_tool}
use emberbox.Tests.Counting.{two_warm}
use emberbox.Tests.Toys.{
  toy_tools, toy_agent, toy_clock, toy_json, toy_json-RoundTrips, Link, toy_transport,
  toy_transport-Reaches,
}
use emberbox.Tests.ToyMachine.{toy_config, toy_vm}

abbrev link_machine : Machine Link
link_machine = record {
  mkdir_temp = λ root pattern w. (ok (b'd' ∷ []), w);
  remove_all = λ d w. (none, w);
  create = λ f w. (ok 5, w);
  close_file = λ f w. w;
  start = λ program args f w. (ok 42, w);
  kill_group = λ pid signal w. (none, w);
  exits = λ pid d w. (true, w);
  wait = λ pid w. w;
  new_uuid = λ w. (b'u' ∷ [], w);
}

abbrev link_http : Http Link
link_http = record {
  marshal = λ body. ok [];
  new_request = λ url. none;
  put = λ ctx socket path body w. (ok (204, []), w);
  connect = λ ctx socket w. (none, w);
}

abbrev link_host : Host Link
link_host = record {
  machine = link_machine;
  http = link_http;
  transport = toy_transport;
  json = toy_json;
  now = λ w. pos 0;
  ends = λ ctx w. (0, sentinel deadline_exceeded);
  join_path = λ a b. a ++ b;
  quote = λ s. s;
}

abbrev greeting : Text
greeting = b'O' ∷ b'K' ∷ b' ' ∷ b'1' ∷ b'\n' ∷ []

accepts-greeting : accepts (trim_right is_newline greeting) ≡ true
unfolding accepts trim_right has_prefix text
accepts-greeting = refl

abbrev greeter : Accepts toy_transport (λ (l : Link). l.guest) [] 10000
greeter = record {
  conn = tt;
  dials = λ ctx w. (refl, refl);
  sends = λ bytes w. refl;
  connects = λ w. refl;
  line = greeting;
  line_accepts = accepts-greeting;
  replies = λ w. (refl, refl);
}

abbrev linked : Vms Link
linked = record { host = record { sent = []; guest = 3 }; stops = [] }

abbrev two_seconds : Context
two_seconds = record { deadline = some (pos 2000000000); env = none }

exec-answer_in_guest_example :
    let e : Text = b'e' ∷ [] in
    let budget = timeout_of (request_for e (7 ∷ []) (pos 2000000000 -ℤ pos 0)) in
    let said = answer toy_tools (with_timeout background (toy_clock 3) budget) e (7 ∷ []) 3 in
    let out = exec link_host toy_config two_seconds (of_firecracker toy_vm) e (7 ∷ []) linked in
    (r : ExecResult) × (out.0 ≡ ok r) × (answer_of r ≡ said.0) × (out.1.host.guest ≡ said.1)
exec-answer_in_guest_example =
    exec-answer_in_guest link_host toy_config toy_json-RoundTrips toy_clock toy_agent background
      (λ l. l.guest) toy_transport-Reaches toy_vm greeter two_seconds (b'e' ∷ []) (7 ∷ []) linked tt
      tt tt

abbrev vm_config : Config ℕ
vm_config = record {
  backend = none;
  mode = mode_firecracker;
  kernel_path = b'k' ∷ [];
  rootfs_path = b'r' ∷ [];
  tools = none;
  pool = two_warm;
}

-- A tool that is registered again, after another one.
abbrev thrice : List (Tool ℕ)
thrice =
    bash_tool no_commands no_inputs.bash
    ∷ grep_tool no_commands no_inputs.grep
    ∷ bash_tool no_commands no_inputs.bash
    ∷ []

list-register_all_example :
    let r = register_all (new_registry ℕ) thrice in
    (named (text "bash") (list r) ≡ at_most_one (last_named (text "bash") none thrice))
    × (get r (text "bash") ≡ last_named (text "bash") none thrice)
list-register_all_example = list-register_all thrice (text "bash")
