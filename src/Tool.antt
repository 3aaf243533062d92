-- ===== src/Tool.antt =====
-- tool/tool.go: the contract of a tool, and the registry of named tools. A tool may change the
-- world `W` (files, processes, the network), which the caller passes along. The registry's lock
-- makes each method one step.
pub mod Registry
pub mod Answer
use emberbox.Prelude.{Bool, Text, List, [], Option}
use emberbox.Prelude.Dict
use emberbox.Prelude.Dict.{Dict}
use emberbox.Errors.{Result}
use emberbox.Context.{Context}

pub record ToolResult : Type 0 where
  pub content : Text
  pub is_error : Bool

-- `execute ctx input w`; the input is the raw JSON.
pub record Tool (W : Type 0) : Type 0 where
  pub name : Text
  pub execute : Context → Text → W → Result ToolResult × W

abbrev pub Tools : Type 0 → Type 0
Tools W = Dict (Tool W)

module _ {W : Type 0} where
  unfoldable pub register : Tools W → Tool W → Tools W
  register r t = Dict.insert t.name t r

  unfoldable pub get : Tools W → Text → Option (Tool W)
  get r name = Dict.lookup name r

  unfoldable pub list : Tools W → List (Tool W)
  list r = Dict.values r

unfoldable pub new_registry : (W : Type 0) → Tools W
new_registry W = []
