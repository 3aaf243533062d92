-- ===== src/Builtin/FileRead.antt =====
-- tools/fileread.go: the lines of a file, numbered, from an offset and up to a limit.
pub mod Laws
use emberbox.Prelude.{
  Bool, not, false, ◌&&◌, Text, text, ℕ, suc, ◌++◌, ◌∷◌, [], List, ◌==◌, Option, none, some,
  is_empty, join, length, itoa, leb, if◌then◌else◌,
}
use emberbox.Prelude.Int.{ℤ, pos, eqb_ℤ, leb_ℤ}
use emberbox.Errors.{Result, ok, err, Error, plain, message}
use emberbox.Tool.{Tool, ToolResult}
use emberbox.Builtin.{Files, parse_input, require_field, err_result, good_result}

pub record FileReadInput : Type 0 where
  pub path : Text
  pub offset : ℤ
  pub limit : ℤ

abbrev cons_head : ℕ → List Text → List Text
cons_head c [] = (c ∷ []) ∷ []
cons_head c (p ∷ ps) = (c ∷ p) ∷ ps

-- The text between line feeds; what follows the last one is a piece if it is not empty.
unfoldable pub pieces : Text → List Text
pieces [] = []
pieces (c ∷ s) = let rest = pieces s in if c == b'\n' then [] ∷ rest else cons_head c rest

-- A carriage return at the end of a line is dropped.
unfoldable pub drop_cr : Text → Text
drop_cr [] = []
drop_cr (c ∷ s) = let rest = drop_cr s in if is_empty s && (c == b'\r') then [] else c ∷ rest

-- The buffer of bufio.Scanner: a line with as many bytes before its line feed does not fit.
unfoldable pub max_token : ℕ
max_token = 65536

-- fmt.Sprintf("%d\t%s", n, line)
unfoldable pub numbered : ℕ → Text → Text
numbered n piece = itoa n ++ (b'\t' ∷ drop_cr piece)

-- How the loop ends: with its lines, or with the scanner's error.
abbrev prepend : Text → Result (List Text) → Result (List Text)
prepend line (ok ls) = ok (line ∷ ls)
prepend line (err e) = err e

unfoldable pub too_long : Error
too_long = plain (text "bufio.Scanner: token too long")

abbrev pub end_of : Option Error → Result (List Text)
end_of none = ok []
end_of (some e) = err e

-- The file ends in a line without a line feed. The scanner reads on for its end, so it meets the
-- error of the reads, if there is one, with this line and with no other.
unfoldable pub unended : Text → Bool
unended [] = false
unended (c ∷ s) = let rest = unended s in if is_empty s then not (c == b'\n') else rest

-- What scanner.Err() returns at the break: an error that has come with the last line.
abbrev pub at_break : Option Error → List Text → Result (List Text)
at_break last [] = end_of last
at_break last (p ∷ ps) = ok []

-- The loop over the scanner, with `n` lines scanned and `k` lines kept so far. `last` is the error
-- that the reads end with, if they do not end with the end of the file; `early` is that error if it
-- comes with the last line.
unfoldable pub scan : ℤ → ℤ → Option Error → Option Error → ℕ → ℕ → List Text → Result (List Text)
scan offset limit last early n k [] = end_of last
scan offset limit last early n k (p ∷ ps) =
    let skipped = leb_ℤ (pos (suc n)) offset in
    let rest = scan offset limit last early (suc n) (if skipped then k else suc k) ps in
    if leb max_token (length p)
    then err too_long
    else (if skipped
        then rest
        else (if leb_ℤ limit (pos k) then at_break early ps else prepend (numbered (suc n) p) rest))

-- What the tool makes of the lines.
unfoldable pub shown : Result (List Text) → ToolResult
shown (err e) = err_result (text "read error: " ++ message e)
shown (ok lines) =
    if is_empty lines
    then good_result (text "(empty file or offset beyond end)")
    else good_result (join lines (b'\n' ∷ []))

abbrev pub limit_or : ℤ → ℤ
limit_or limit = if eqb_ℤ limit (pos 0) then pos 2000 else limit

module _ {W : Type 0} (files : Files W) (unmarshal : Text → Result FileReadInput) where
  abbrev pub after_open : FileReadInput → Result (Text × Option Error) → ToolResult
  after_open inp (err e) = err_result (text "cannot open file: " ++ message e)
  after_open inp (ok (content, last)) =
      let early = if unended content then last else none in
      shown (scan inp.offset (limit_or inp.limit) last early 0 0 (pieces content))

  abbrev pub checked : FileReadInput → Option ToolResult → W → ToolResult
  checked inp (some refused) w = refused
  checked inp none w = after_open inp (files.open_file inp.path w)

  unfoldable pub read : FileReadInput → W → ToolResult
  read inp w = checked inp (require_field (text "path") inp.path) w

  abbrev pub on_input : Result FileReadInput → W → Result ToolResult × W
  on_input (err e) w = (err e, w)
  on_input (ok inp) w = (ok (read inp w), w)

  unfoldable pub file_read_tool : Tool W
  file_read_tool = record {
    name = text "file_read";
    execute = λ ctx input w. on_input (parse_input (unmarshal input)) w;
  }
