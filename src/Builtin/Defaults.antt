-- ===== src/Builtin/Defaults.antt =====
-- tools/defaults.go: the registry of all built-in tools.
use emberbox.Prelude.{
  text_eq_iff, Bool-cases, ◌∙◌, inl, inr, ◌∙◌, Text, text, List, [], ◌∷◌, Option, some, ◌≡◌, ◌≢◌,
  refl, All, text_eq,
}
use emberbox.Errors.{Result}
use emberbox.Tool.{Tool, Tools, get}
use emberbox.Tool.Registry.{register_all, last_named, get-register_all}
use emberbox.Builtin.{Files}
use emberbox.Builtin.FileEdit.{FileEditInput, file_edit_tool}
use emberbox.Builtin.FileRead.{FileReadInput, file_read_tool}
use emberbox.Builtin.FileWrite.{FileWriteInput, GlobInput, Paths, file_write_tool, glob_tool}
use emberbox.Builtin.Commands.{BashInput, GrepInput, Commands, bash_tool, grep_tool}
use emberbox.Builtin.WebFetch.{WebFetchInput, Web, web_fetch_tool}

-- Unmarshal at the input type of each tool.
pub record Inputs : Type 0 where
  pub bash : Text → Result BashInput
  pub file_read : Text → Result FileReadInput
  pub file_write : Text → Result FileWriteInput
  pub file_edit : Text → Result FileEditInput
  pub glob : Text → Result GlobInput
  pub grep : Text → Result GrepInput
  pub web_fetch : Text → Result WebFetchInput

module _ {W : Type 0} (inputs : Inputs) (files : Files W) (paths : Paths W) (cmds : Commands W)
    (web : Web W) where
  abbrev pub default_tools : List (Tool W)
  default_tools =
      bash_tool cmds inputs.bash
      ∷ file_read_tool files inputs.file_read
      ∷ file_write_tool files paths inputs.file_write
      ∷ file_edit_tool files inputs.file_edit
      ∷ glob_tool files paths inputs.glob
      ∷ grep_tool cmds inputs.grep
      ∷ web_fetch_tool web inputs.web_fetch
      ∷ []

  -- RegisterDefaults.
  unfoldable pub register_defaults : Tools W → Tools W
  register_defaults r = register_all r default_tools

  others_kept :
      (ts : List (Tool W)) (name : Text) (old : Option (Tool W))
      → All (λ t. t.name ≢ name) ts
      → last_named name old ts ≡ old
  others_kept [] name old others = refl
  others_kept (t ∷ ts) name old (other, others) = elim (Bool-cases (text_eq t.name name)) [
    | inl e ↦ absurd (other ((text_eq_iff t.name name).0 e))
    | inr e ↦ rw e (others_kept ts name old others)
  ]

  found : (r : Tools W) → All (λ t. get (register_defaults r) t.name ≡ some t) default_tools
  unfolding register_defaults text text_eq bash_tool file_read_tool file_write_tool file_edit_tool
      glob_tool grep_tool web_fetch_tool
  found r =
      let look = get-register_all default_tools r in
      (look _, (look _, (look _, (look _, (look _, (look _, (look _, tt)))))))

  -- RegisterDefaults replaces the tools under the names of the seven built-in ones: each of these
  -- is found under its name, and any other name is looked up as before.
  register_defaults_lem :
      (r : Tools W) (name : Text)
      → All (λ t. t.name ≢ name) default_tools
      → All (λ t. get (register_defaults r) t.name ≡ some t) default_tools
        × (get (register_defaults r) name ≡ get r name)
  unfolding register_defaults
  register_defaults_lem r name others = (
    found r,
    get-register_all default_tools r name ∙ others_kept default_tools name (get r name) others,
  )
