-- ===== src/Tool/Registry.antt =====
-- What the registry of tool/tool.go holds after any calls of `Register`.
pub mod Listing
use emberbox.Prelude.{◌≡◌, refl, Option, some, List, [], ◌∷◌, Text, text_eq, if◌then◌else◌}
use emberbox.Prelude.Dict
use emberbox.Tool.{Tool, Tools, register, get}

module _ {W : Type 0} where
  -- Every tool is stored under its own name, and no name twice.
  abbrev pub IsNamed : Tools W → Type 0
  IsNamed [] = Unit
  IsNamed ((k, t) ∷ r) = (t.name ≡ k) × IsNamed r

  abbrev pub register_all : Tools W → List (Tool W) → Tools W
  register_all r [] = r
  register_all r (t ∷ ts) = register_all (register r t) ts

  -- The last tool of a list with a name, or a tool from before.
  abbrev pub last_named : Text → Option (Tool W) → List (Tool W) → Option (Tool W)
  last_named name old [] = old
  last_named name old (t ∷ ts) = last_named name (if text_eq t.name name then some t else old) ts

  pub get-register :
      (r : Tools W) (t : Tool W) (name : Text)
      → get (register r t) name ≡ (if text_eq t.name name then some t else get r name)
  unfolding register get
  get-register r t name = Dict.lookup-insert t.name name t r

  -- After any calls of `Register`, `Get` finds the tool that was registered last under the name,
  -- and nothing else.
  pub get-register_all :
      (ts : List (Tool W)) (r : Tools W) (name : Text)
      → get (register_all r ts) name ≡ last_named name (get r name) ts
  get-register_all [] r name = refl
  get-register_all (t ∷ ts) r name =
      rw (get-register_all ts (register r t) name, get-register r t name)
