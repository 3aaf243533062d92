-- ===== src/Tests/ToyMachine.antt =====
-- A machine with one process, whose VMM logs what it is sent.
use emberbox.Prelude.{Text, ◌++◌, ◌∷◌, [], List, Bool, true, false, none, some, ◌≡◌, refl}
use emberbox.Prelude.Int.{pos}
use emberbox.Errors.{ok, err, sentinel, eof, deadline_exceeded}
use emberbox.Sandbox.AgentClient.{Transport}
use emberbox.Sandbox.FirecrackerApi.{Http}
use emberbox.Sandbox.Handles.{FirecrackerHandle}
use emberbox.Sandbox.Firecracker.{FirecrackerConfig}
use emberbox.Sandbox.Firecracker.Machine.{Machine, Launch}
use emberbox.Sandbox.Firecracker.Boot.{Host}
use emberbox.Sandbox.Firecracker.Laws.{Stops}
use emberbox.Tests.Toys.{toy_json}

pub record Box : Type 0 where
  pub running : Bool
  pub sent : List Text

-- A process that ignores SIGTERM.
abbrev pub toy_machine : Machine Box
toy_machine = record {
  mkdir_temp = λ root pattern w. (ok (b'd' ∷ []), w);
  remove_all = λ d w. (none, w);
  create = λ f w. (ok 5, w);
  close_file = λ f w. w;
  start = λ program args f w. (ok 42, record w { running = true });
  kill_group = λ pid signal w. (none, w);
  exits = λ pid d w. (false, w);
  wait = λ pid w. record w { running = false };
  new_uuid = λ w. (b'u' ∷ [], w);
}

pub never : (w : Box) → ◌≡◌ {A = Bool} false true → w.running ≡ false
never w e = cc

abbrev pub toy_machine-Stops : Stops toy_machine
toy_machine-Stops = record {
  IsGone = λ pid w. w.running ≡ false;
  exits_gone = λ pid d w e. never w e;
  wait_gone = λ pid w. refl;
  close_keeps = λ f pid w gone. gone;
  remove_keeps = λ d pid w gone. gone;
}

-- The socket of the VMM, which replies to CONNECT with `line`.
abbrev box_transport : Text → Transport Box
box_transport line = record {
  Conn = Unit;
  dial = λ ctx limit path w. (ok tt, w);
  set_deadline = λ c d w. w;
  send = λ c bytes w. (none, w);
  read_line = λ c w. (ok line, w);
  receive = λ c w. (err (sentinel eof), w);
  close = λ c w. w;
}

abbrev box_http : Http Box
box_http = record {
  marshal = λ body. ok [];
  new_request = λ url. none;
  put = λ ctx socket path body w. (ok (204, []), record w { sent = w.sent ++ path ∷ [] });
  connect = λ ctx socket w. (none, w);
}

abbrev pub toy_box : Text → Host Box
toy_box line = record {
  machine = toy_machine;
  http = box_http;
  transport = box_transport line;
  json = toy_json;
  now = λ w. pos 0;
  ends = λ ctx w. (0, sentinel deadline_exceeded);
  join_path = λ a b. a ++ b;
  quote = λ s. s;
}

abbrev pub toy_config : FirecrackerConfig
toy_config = record {
  firecracker_binary = b'f' ∷ [];
  kernel_path = b'k' ∷ [];
  rootfs_path = b'r' ∷ [];
  rootfs_read_write = false;
  kernel_boot_args = [];
  agent_port = 10000;
  guest_cid = pos 3;
  default_memory_mb = pos 128;
  default_vcpus = pos 1;
  work_root = [];
  boot_timeout = pos 30000000000;
  stop_timeout = pos 5000000000;
}

abbrev pub toy_launch : Launch Box
toy_launch ctx api_path dir log_file w = (ok (some 42), record w { running = true })

abbrev pub toy_vm : FirecrackerHandle
toy_vm = record {
  id = b'u' ∷ [];
  work_dir = b'd' ∷ [];
  uds_path = [];
  api_path = [];
  pid = some 42;
  log_file = 5;
  memory_mb = pos 128;
  vcpus = pos 1;
  env = [];
}
