-- ===== src/Tests/ToyTools.antt =====
-- Surroundings of the built-in tools in which nothing can be done.
use emberbox.Prelude.{◌++◌, ℕ, [], true, false, none, some}
use emberbox.Prelude.Int.{pos}
use emberbox.Errors.{ok, err, sentinel, eof}
use emberbox.Builtin.{Files}
use emberbox.Builtin.FileWrite.{Paths}
use emberbox.Builtin.Commands.{Commands}
use emberbox.Builtin.WebFetch.{Web}
use emberbox.Builtin.Defaults.{Inputs}

abbrev pub no_inputs : Inputs
no_inputs = record {
  bash = λ s. err (sentinel eof);
  file_read = λ s. err (sentinel eof);
  file_write = λ s. err (sentinel eof);
  file_edit = λ s. err (sentinel eof);
  glob = λ s. err (sentinel eof);
  grep = λ s. err (sentinel eof);
  web_fetch = λ s. err (sentinel eof);
}

abbrev pub no_commands : Commands ℕ
no_commands = record {
  now = λ w. pos w;
  run = λ ctx program args w.
      (record { stdout = []; stderr = []; failed = true; has_state = false; exit_code = pos 0 }, w);
}

abbrev pub no_files : Files ℕ
no_files = record {
  read_file = λ path w. err (sentinel eof);
  write_file = λ path content w. (some (sentinel eof), w);
  open_file = λ path w. err (sentinel eof);
}

abbrev pub no_paths : Paths ℕ
no_paths = record {
  dir = λ p. p;
  join_path = λ a b. a ++ b;
  mkdir_all = λ d w. (none, w);
  glob_files = λ p w. ok [];
}

abbrev pub no_web : Web ℕ
no_web = record {
  new_request = λ method url. none;
  send = λ ctx method url headers w. (err (sentinel eof), w);
}
