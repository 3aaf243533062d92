-- ===== src/Examples/GuestAgent/Laws.antt =====
-- What examples/firecrackerbackend/agent/main.go makes of its environment, its tools and its port.
use emberbox.Builtin.FileEdit.{file_edit_tool}
use emberbox.Builtin.FileRead.{file_read_tool}
use emberbox.Prelude.{
  sym, ◌∙◌, Text, text, text_eq, text_eq_iff, [], ◌∷◌, ◌++◌, some, is_empty, ◌≡◌, ◌≢◌, refl,
  Bool-cases, inl, inr, All, ap, ◌==◌, false, arith,
}
use emberbox.Prelude.Dict
use emberbox.Prelude.Dict.{Dict}
use emberbox.Errors.{Result}
use emberbox.Tool.{Tools, get, new_registry}
use emberbox.Tool.Registry.{get-register_all}
use emberbox.Builtin.{Files}
use emberbox.Builtin.FileWrite.{glob_tool, file_write_tool, Paths}
use emberbox.Builtin.Commands.{grep_tool, bash_tool, Commands}
use emberbox.Builtin.WebFetch.{web_fetch_tool, Web}
use emberbox.Builtin.Defaults.{Inputs, register_defaults, default_tools}
use emberbox.Agent.Vsock.{Kernel}
use emberbox.Agent.Program.{Flags, main}
use emberbox.Examples.Greet.{GreetInput, greet_tool}
use emberbox.Examples.GuestAgent.{
  getenv_of, getenv, default_path, plant_path, guest_tools, guest_main,
}

planted : (env : Dict Text) → getenv (plant_path env) (text "PATH") ≢ []
unfolding plant_path text
planted env = elim (Bool-cases (is_empty (getenv env (text "PATH")))) [
  | inl missing ↦ rw (missing, Dict.lookup-insert_self (text "PATH") default_path env) (λ e. cc)
  | inr there ↦ rw there (λ e. ground (arith, there))
]

others_kept :
    (env : Dict Text) (name : Text)
    → name ≢ text "PATH"
    → getenv (plant_path env) name ≡ getenv env name
unfolding plant_path
others_kept env name other =
    let differ : text_eq (text "PATH") name ≡ false =
      elim (Bool-cases (text_eq (text "PATH") name)) [
        | inl same ↦ absurd (other (sym ((text_eq_iff (text "PATH") name).0 same)))
        | inr differ ↦ differ
      ] in
    let kept : Dict.lookup name (Dict.insert (text "PATH") default_path env)
        ≡ Dict.lookup name env =
      Dict.lookup-insert (text "PATH") name default_path env ∙ rw differ refl in
    elim (Bool-cases (is_empty (getenv env (text "PATH")))) [
      | inl missing ↦ rw missing (ap getenv_of kept)
      | inr there ↦ rw there refl
    ]

module _ {W : Type 0} (inputs : Inputs) (unmarshal : Text → Result GreetInput) (files : Files W)
    (paths : Paths W) (cmds : Commands W) (web : Web W) where
  found :
      All
        (λ t. get (guest_tools inputs unmarshal files paths cmds web) t.name ≡ some t)
        (greet_tool unmarshal ∷ default_tools inputs files paths cmds web)
  unfolding guest_tools register_defaults text text_eq greet_tool bash_tool file_read_tool
      file_write_tool file_edit_tool glob_tool grep_tool web_fetch_tool
  found =
      let look =
        get-register_all (default_tools inputs files paths cmds web ++ greet_tool unmarshal ∷ [])
          (new_registry W) in
      (look _, (look _, (look _, (look _, (look _, (look _, (look _, (look _, tt))))))))

guest_main-main :
    {K W : Type 0} (kern : Kernel K) (tools : Tools W) (flags : Flags) (k : K)
    → flags.vsock_port ≢ 0
    → guest_main kern tools flags k ≡ main kern tools flags k
unfolding guest_main main
guest_main-main kern tools flags k given =
    let test : (flags.vsock_port == 0) ≡ false = ground arith in rw test refl

module _ {K W : Type 0} (kern : Kernel K) (inputs : Inputs) (unmarshal : Text → Result GreetInput)
    (files : Files W) (paths : Paths W) (cmds : Commands W) (web : Web W) where
  -- With a port other than 0 the agent of the example is the one of cmd/emberbox-agent, but with a
  -- registry that has the greet tool beside the seven built-in ones, each under its name; and
  -- before that its environment has a PATH that is not empty, while every other variable is as it
  -- was.
  guest_agent_lem :
      (env : Dict Text) (name : Text) (flags : Flags) (k : K)
      → flags.vsock_port ≢ 0
      → name ≢ text "PATH"
      → let tools = guest_tools inputs unmarshal files paths cmds web in
        (guest_main kern tools flags k ≡ main kern tools flags k)
        × All
            (λ t. get tools t.name ≡ some t)
            (greet_tool unmarshal ∷ default_tools inputs files paths cmds web)
        × (getenv (plant_path env) (text "PATH") ≢ [])
        × (getenv (plant_path env) name ≡ getenv env name)
  guest_agent_lem env name flags k given other = (
    guest_main-main kern (guest_tools inputs unmarshal files paths cmds web) flags k given,
    found inputs unmarshal files paths cmds web,
    planted env,
    others_kept env name other,
  )
