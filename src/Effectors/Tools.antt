-- ===== src/Effectors/Tools.antt =====
-- brain/effectors/tools.py: the `Tool` contract and the registry.
use johnny.Prelude.{
  String, ◌≡◌, ◌≢◌, Bool, Option, none, some, List, [], ◌∷◌, arith, Dict, lookup, insert, remove,
  lookup-insert, lookup-remove, eq_iff, if◌then◌else◌, ◌==◌,
}
use johnny.Prelude.Exec.{Outcome, returned, raised}
use johnny.Json.{Fields}

pub data DangerClass : Type 0 where
  safe network exec public : DangerClass

-- `str(danger)`
abbrev pub danger_text : DangerClass → String
danger_text DangerClass.safe = "safe"
danger_text DangerClass.network = "network"
danger_text DangerClass.exec = "exec"
danger_text DangerClass.public = "public"

pub record ToolResult : Type 0 where
  pub success : Bool
  pub output : Fields
  pub summary : String

-- A tool as the belt stores it. `validate` is `args_schema.model_validate`: the validated arguments, or
-- the text of the `ValidationError`. What `run` does is outside the belt.
pub record Tool : Type 0 where
  pub name : String
  pub danger : DangerClass
  pub validate : Fields → Outcome String Fields

unfoldable pub validate_args : Tool → Fields → Outcome String Fields
validate_args tool raw = tool.validate raw

-- `ToolRegistry._tools`
abbrev pub Registry : Type 0
Registry = Dict Tool

-- `ValueError`, with the name that is taken, or the registry with the tool on it
abbrev pub register_at : Tool → Registry → Option Tool → Outcome String Registry
register_at tool tools (some taken) = raised tool.name
register_at tool tools none = returned (insert tool.name tool tools)

unfoldable pub register : Tool → Registry → Outcome String Registry
register tool tools = register_at tool tools (lookup tool.name tools)

unfoldable pub retire : String → Registry → Registry
retire name tools = remove name tools

abbrev or_key_error : String → Option Tool → Outcome String Tool
or_key_error name none = raised name
or_key_error name (some tool) = returned tool

unfoldable pub resolve : String → Registry → Outcome String Tool
resolve name tools = or_key_error name (lookup name tools)

unfoldable pub get : String → Registry → Option Tool
get name tools = lookup name tools

unfoldable pub names : Registry → List String
names [] = []
names ((name, tool) ∷ tools) = name ∷ names tools

unfoldable pub all : Registry → List Tool
all [] = []
all ((name, tool) ∷ tools) = tool ∷ all tools

-- A tool that is registered under a free name is the one that its name gives, and the other names give
-- what they gave; a name that is taken refuses it.
pub get-register :
    (tool : Tool) (tools : Registry) (name : String)
    → (get tool.name tools ≡ none
        → (after : Registry) × (register tool tools ≡ returned after)
          × (get name after ≡ (if tool.name == name then some tool else get name tools)))
      × (get tool.name tools ≢ none → register tool tools ≡ raised tool.name)
unfolding register get
get-register tool tools name = (
  λ free. (insert tool.name tool tools, rw free, lookup-insert tool.name name tool tools),
  λ taken. ground arith,
)

-- A retired tool is no longer on the belt, and no other tool is touched.
pub get-retire :
    (tools : Registry) (name other : String)
    → get other (retire name tools) ≡ (if name == other then none else get other tools)
unfolding retire get
get-retire tools name other = lookup-remove name other tools

-- Each tool of a belt stands under its own name.
abbrev pub IsNamed : Registry → Type 0
IsNamed tools = (name : String) (tool : Tool) → get name tools ≡ some tool → tool.name ≡ name

pub retire-IsNamed :
    (tools : Registry) (name : String) → IsNamed tools → IsNamed (retire name tools)
unfolding retire get
retire-IsNamed tools name n j t h = ground (arith, lookup-remove name j tools, n j t)

pub register-IsNamed :
    (tool : Tool) (tools after : Registry)
    → IsNamed tools
    → register tool tools ≡ returned after
    → IsNamed after
unfolding register get
register-IsNamed tool tools after n e j t h =
    ground (arith, lookup-insert tool.name j tool tools, n j t, eq_iff tool.name j)
