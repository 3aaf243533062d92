-- ===== src/Builtin/Commands/CommandLine.antt =====
-- tools/grep.go: how rg reads the command line that grepTool builds.
use emberbox.Prelude.{
  ◌++◌, Text, text, ◌∷◌, [], List, Bool, true, false, ◌≡◌, ◌⊎◌, ◌≤◌, inl, inr, length, is_empty,
  if◌then◌else◌, Bool-cases, refl, has_prefix, ltb, ◌&&◌,
}
use emberbox.Builtin.Commands.{GrepInput, grep_args, search_path}

-- An argument of the form -x or --name, which rg does not take as an operand; a single dash is one.
unfoldable pub is_option : Text → Bool
is_option a = has_prefix a (text "-") && ltb 1 (length a)

-- rg's reading of its arguments: the operands, the first of which is the pattern and the others the
-- paths. Options are read wherever they stand, and an option is not itself an operand.
pub record CommandLine : Type 0 where
  pub operands : List Text → List Text
  pub nothing : operands [] ≡ []
  pub operand :
      (a : Text) (args : List Text) → is_option a ≡ false → operands (a ∷ args) ≡ a ∷ operands args
  pub option_lost :
      (a : Text) (args : List Text)
      → is_option a ≡ true
      → length (operands (a ∷ args)) ≤ length args
  pub color : (args : List Text) → operands (text "--color=never" ∷ args) ≡ operands args
  pub numbers : (args : List Text) → operands (text "-n" ∷ args) ≡ operands args
  pub max_count : (args : List Text) → operands (text "--max-count=100" ∷ args) ≡ operands args
  pub glob : (g : Text) (args : List Text) → operands (text "--glob" ∷ g ∷ args) ≡ operands args
  pub file_type :
      (t : Text) (args : List Text) → operands (text "--type" ∷ t ∷ args) ≡ operands args

-- The search path is the path of the input or a dot, which is no option.
search_path_plain :
    (p : Text) → is_option p ≡ false → is_option (if is_empty p then text "." else p) ≡ false
unfolding is_option text has_prefix
search_path_plain [] plain = refl
search_path_plain (c ∷ p) plain = plain

module _ (rg : CommandLine) where
  glob-skipped :
      (g : Text) (args : List Text)
      → rg.operands ((if is_empty g then [] else text "--glob" ∷ g ∷ []) ++ args) ≡ rg.operands args
  glob-skipped [] args = refl
  glob-skipped (c ∷ g) args = rg.glob (c ∷ g) args

  type-skipped :
      (t : Text) (args : List Text)
      → rg.operands ((if is_empty t then [] else text "--type" ∷ t ∷ []) ++ args) ≡ rg.operands args
  type-skipped [] args = refl
  type-skipped (c ∷ t) args = rg.file_type (c ∷ t) args

  -- What the options before the pattern leave.
  grep_args-skipped :
      (inp : GrepInput)
      → rg.operands (grep_args inp) ≡ rg.operands (inp.pattern ∷ search_path inp ∷ [])
  unfolding grep_args
  grep_args-skipped inp = rw (rg.color, rg.numbers, rg.max_count, glob-skipped, type-skipped) refl

  -- If the path of the input is no option, then either the pattern is no option, and rg reads the
  -- pattern and the search path as its two operands, in this order; or the pattern is one, and at
  -- most one operand is left.
  pub grep_args_lem :
      (inp : GrepInput)
      → is_option inp.path ≡ false
      → ((is_option inp.pattern ≡ false)
          × (rg.operands (grep_args inp) ≡ inp.pattern ∷ search_path inp ∷ []))
        ⊎ ((is_option inp.pattern ≡ true) × (length (rg.operands (grep_args inp)) ≤ 1))
  grep_args_lem inp plain = elim (Bool-cases (is_option inp.pattern)) [
    | inl option ↦ inr (
      option,
      rw (grep_args-skipped inp) (rg.option_lost inp.pattern (search_path inp ∷ []) option),
    )
    | inr other ↦ inl (
      other,
      rw
          (
            grep_args-skipped inp,
            rg.operand inp.pattern (search_path inp ∷ []) other,
            rg.operand (search_path inp) [] (search_path_plain inp.path plain),
            rg.nothing,
          )
          refl,
    )
  ]
