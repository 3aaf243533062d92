-- ===== src/Tests/CommandTests.antt =====
-- tools/grep.go: a reading of rg's command line, and a pattern that begins with dashes.
use emberbox.Tests.Counting.{two_warm, plain_request}
use emberbox.Tests.Toys.{toy_world}
use emberbox.Prelude.Int.{pos, ◌+ℤ◌}
use emberbox.Context.{Context, EndsBy}
use emberbox.Sandbox.Pool.Methods.{execute}
use emberbox.Sandbox.Pool.Sections.{Pool}
use emberbox.Sandbox.Host.Deadlines.{execute-bash}
use emberbox.Sandbox.Host.Laws.{answer_of}
use emberbox.Sandbox.Host.{HostBackend, host_backend}
use emberbox.Sandbox.Handles.{HostHandle, of_host}
use emberbox.Sandbox.{AllocRequest, ExecResult}
use emberbox.Tool.Answer.{of_result}
use emberbox.Tool.{register}
use emberbox.Errors.{Result, ok}
use emberbox.Prelude.{
  some, none, ℕ, join, ◌+◌, ◌||◌, has_prefix, Text, text, ◌∷◌, [], List, Bool, true, false, ◌≡◌,
  ◌⊎◌, ◌≤◌, length, if◌then◌else◌, text_eq, refl, arith,
}
use emberbox.Builtin.Commands.{
  bash_tool, bash_result, bash_timeout, BashInput, Commands, GrepInput, grep_args, search_path,
}
use emberbox.Builtin.Commands.CommandLine.{CommandLine, is_option, grep_args_lem}

abbrev takes_value : Text → Bool
takes_value a = text_eq a (text "--glob") || text_eq a (text "--type")

-- The operands; the flag says that the next argument is the value of an option.
abbrev read_args : Bool → List Text → List Text
read_args v [] = []
read_args true (a ∷ args) = read_args false args
read_args false (a ∷ args) =
    if is_option a then read_args (takes_value a) args else a ∷ read_args false args

length-read_args : (v : Bool) (args : List Text) → length (read_args v args) ≤ length args
length-read_args true [] = omega arith
length-read_args false [] = omega arith
length-read_args true (a ∷ args) = omega (arith, length-read_args false args)
length-read_args false (a ∷ args) =
    let given = length-read_args (takes_value a) args in
    let plain = length-read_args false args in ground arith

color_read :
    (args : List Text) → read_args false (text "--color=never" ∷ args) ≡ read_args false args
unfolding text text_eq is_option has_prefix
color_read args = refl

numbers_read : (args : List Text) → read_args false (text "-n" ∷ args) ≡ read_args false args
unfolding text text_eq is_option has_prefix
numbers_read args = refl

max_count_read :
    (args : List Text) → read_args false (text "--max-count=100" ∷ args) ≡ read_args false args
unfolding text text_eq is_option has_prefix
max_count_read args = refl

glob_read :
    (v : Text) (args : List Text)
    → read_args false (text "--glob" ∷ v ∷ args) ≡ read_args false args
unfolding text text_eq is_option has_prefix
glob_read v args = refl

type_read :
    (v : Text) (args : List Text)
    → read_args false (text "--type" ∷ v ∷ args) ≡ read_args false args
unfolding text text_eq is_option has_prefix
type_read v args = refl

abbrev toy_rg : CommandLine
toy_rg = record {
  operands = read_args false;
  nothing = refl;
  operand = λ a args plain. rw plain refl;
  option_lost = λ a args option. rw option (length-read_args (takes_value a) args);
  color = color_read;
  numbers = numbers_read;
  max_count = max_count_read;
  glob = glob_read;
  file_type = type_read;
}

abbrev list_files : GrepInput
list_files = record { pattern = text "--files"; path = []; glob = text "*.go"; type_filter = [] }

list_files_plain : is_option list_files.path ≡ false
unfolding is_option text has_prefix
list_files_plain = refl

grep_args_lem_example :
    ((is_option list_files.pattern ≡ false)
      × (toy_rg.operands (grep_args list_files) ≡ list_files.pattern ∷ search_path list_files ∷ []))
    ⊎ ((is_option list_files.pattern ≡ true)
        × (length (toy_rg.operands (grep_args list_files)) ≤ 1))
grep_args_lem_example = grep_args_lem toy_rg list_files list_files_plain

-- A command prints itself and takes two steps of the clock.
abbrev echo : Commands ℕ
echo = record {
  now = λ w. pos w;
  run = λ ctx program args w. (
    record {
      stdout = join args [];
      stderr = [];
      failed = false;
      has_state = true;
      exit_code = pos 0;
    },
    2 + w,
  );
}

abbrev as_bash : Text → Result BashInput
as_bash s = ok (record { command = s; timeout = pos 3 })

abbrev bash_host : HostBackend ℕ
bash_host = record { tools = register [] (bash_tool echo as_bash); workdir = [] }

abbrev bash_sandbox : HostHandle
bash_sandbox = record { id = b'h' ∷ []; env = [] }

abbrev short_request : AllocRequest
short_request = record plain_request { timeout = pos 20 }

abbrev bash_pool : Pool (host_backend toy_world bash_host)
bash_pool = record {
  cfg = two_warm;
  warm = [];
  active = (b'h' ∷ [], record { handle = of_host bash_sandbox; req = short_request }) ∷ [];
}

abbrev until_fifty : Context
until_fifty = record { deadline = some (pos 50); env = none }

execute-bash_example :
    let out =
      execute
        (host_backend toy_world bash_host)
        bash_pool
        until_fifty
        (pos 8)
        (pos 1)
        (b'h' ∷ [])
        (text "bash")
        (b'l' ∷ [])
        9 in
    (c : Context) × (r : ExecResult) × (out.0 ≡ ok r)
    × (answer_of r
        ≡ of_result
            (ok (bash_result (echo.run c (text "bash") (text "-c" ∷ (b'l' ∷ []) ∷ []) 9).0)))
    × (out.1 ≡ (echo.run c (text "bash") (text "-c" ∷ (b'l' ∷ []) ∷ []) 9).1)
    × EndsBy c (pos 50)
    × EndsBy c (pos 8 +ℤ pos 20)
    × EndsBy c (pos 9 +ℤ bash_timeout (record { command = b'l' ∷ []; timeout = pos 3 }))
unfolding emberbox.Tool.get emberbox.Prelude.Dict.lookup register emberbox.Prelude.Dict.insert
    text_eq bash_tool text emberbox.Sandbox.Pool.Sections.find_active
execute-bash_example =
    execute-bash toy_world bash_host echo as_bash bash_pool until_fifty (pos 8) (pos 1) (pos 50)
      (b'h' ∷ []) (b'l' ∷ []) 9 bash_sandbox short_request
      (record { command = b'l' ∷ []; timeout = pos 3 }) refl refl (λ e. ground arith) refl refl
      (pos 50, refl, omega arith)
