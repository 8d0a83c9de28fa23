-- ===== src/Effectors/Conscience.antt =====
-- brain/agents/conscience.py: the vetting of a proposed action, through the model of the LLM router.
-- `dumps` is `json.dumps` of the arguments with sorted keys, and `parse` the validation of a JSON text
-- as a `Verdict` by Pydantic, with `none` for its `ValidationError`.
pub mod Closed
use Prim.Native.String.{◌++◌ as append_text}
use johnny.Prelude.{
  ℕ, String, ◌≡◌, Bool, true, false, Option, none, some, List, [], ◌∷◌, ◌++◌, if◌then◌else◌, ◌==◌,
}
use johnny.Prelude.Exec.{Outcome, returned, raised}
use johnny.Json.{Fields}
use johnny.Workspace.{WorkspaceItem}
use johnny.Llm.{
  Role, text, Message, Completion, LlmError, unavailable, unavailable_by, Schema, other,
}
use johnny.Llm.Router.{Request, Outside, Config, State, complete}

pub record ProposedAction : Type 0 where
  pub tool : String
  pub args : Fields
  pub danger : String
  pub goal_id : Option ℕ
  pub goal_description : String

-- The two texts that `verdict` may be.
pub data Choice : Type 0 where
  allow veto : Choice

pub record Verdict : Type 0 where
  pub verdict : Choice
  pub reason : String

-- The property `allowed`
abbrev pub is_allow : Choice → Bool
is_allow Choice.allow = true
is_allow Choice.veto = false

unfoldable pub allowed : Verdict → Bool
allowed v = is_allow v.verdict

abbrev pub choice_text : Choice → String
choice_text Choice.allow = "allow"
choice_text Choice.veto = "veto"

abbrev pub unavailable_reason : String
unavailable_reason = "I couldn't consult my conscience just now, so I'm holding off on this."

abbrev pub newline : String
newline = "\n"

-- `"\n".join(lines)`
unfoldable pub join_lines : List String → String
join_lines [] = ""
join_lines (l ∷ []) = l
join_lines (l ∷ k ∷ ls) = append_text l (append_text newline (join_lines (k ∷ ls)))

unfoldable pub awareness_lines {ℓ} : {W : Type ℓ} → List (WorkspaceItem W) → List String
awareness_lines [] = []
awareness_lines (item ∷ items) =
    append_text "  - [" (append_text item.kind (append_text "] " item.content))
    ∷ awareness_lines items

abbrev goal_lines : String → List String
goal_lines goal = if goal == "" then [] else append_text "- in service of the goal: " goal ∷ []

abbrev awareness {ℓ} : {W : Type ℓ} → List (WorkspaceItem W) → List String
awareness [] = []
awareness (item ∷ items) =
    "What is in his awareness right now:" ∷ join_lines (awareness_lines (item ∷ items)) ∷ []

module _ (dumps : Fields → String) where
  -- `_render`
  unfoldable pub render {ℓ} : {W : Type ℓ} → ProposedAction → List (WorkspaceItem W) → String
  unfolding join_lines awareness_lines
  render action contents = join_lines (
      "Johnny is about to take this action:"
      ∷ append_text "- tool: "
          (append_text action.tool (append_text " (hazard class: " (append_text action.danger ")")))
      ∷ append_text "- arguments: " (dumps action.args)
      ∷ (goal_lines action.goal_description
          ++ (awareness contents
              ++ ("" ∷ "Should he, given his values?"
                  ∷ "Respond with ONLY JSON: {\"verdict\": \"allow\"|\"veto\", \"reason\": \"<short first-person line>\"}."
                  ∷ []))))

abbrev pub verdict_error : Option Verdict → Option String
verdict_error none = some "ValidationError"
verdict_error (some v) = none

-- `schema=Verdict`: the class that `parse_verdict` validates by
abbrev pub verdict_schema : (String → Option Verdict) → Schema
verdict_schema parse = record {
  name = "Verdict";
  validation_error = λ content. verdict_error (parse content);
}

abbrev parsed : Option Verdict → Outcome LlmError Verdict
parsed none = raised (other "ValidationError")
parsed (some v) = returned v

unfoldable pub parse_verdict : (String → Option Verdict) → String → Outcome LlmError Verdict
parse_verdict parse content = parsed (parse content)

-- `except LLMUnavailableError`, and the projection of an answer
unfoldable pub judge_completion :
    (String → Option Verdict) → Outcome LlmError Completion → Outcome LlmError Verdict
unfolding parse_verdict
judge_completion parse (returned done) = parse_verdict parse done.content
judge_completion parse (raised (unavailable role)) =
    returned (record { verdict = Choice.veto; reason = unavailable_reason })
judge_completion parse (raised (unavailable_by role cause)) =
    returned (record { verdict = Choice.veto; reason = unavailable_reason })
judge_completion parse (raised x) = raised x

-- An agent: its prompt and its token limit. The temperature is 0.3.
pub record Conscience : Type 0 where
  pub prompt : String
  pub max_tokens : Option ℕ

module _ (dumps : Fields → String) (parse : String → Option Verdict) where
  unfoldable pub vetting_request {ℓ} :
      {W : Type ℓ} → Conscience → ProposedAction → List (WorkspaceItem W) → Request
  unfolding render
  vetting_request agent action contents = record {
    role = "conscience";
    messages =
        record { role = Role.system; content = text agent.prompt }
        ∷ record { role = Role.user; content = text (render dumps action contents) }
        ∷ [];
    schema = some (verdict_schema parse);
    temperature = 30;
    max_tokens = agent.max_tokens;
  }

  module _ (o : Outside) (c : Config) (agent : Conscience) where
    unfoldable pub vet {ℓ} :
        {W : Type ℓ}
        → ProposedAction
        → List (WorkspaceItem W)
        → State
        → Outcome LlmError Verdict × State
    unfolding vetting_request judge_completion
    vet action contents s =
        let (result, t) = complete o c (vetting_request agent action contents) s in
        (judge_completion parse result, t)
