-- ===== src/Effectors/Dispatch.antt =====
-- brain/effectors/dispatch.py: `EffectorDispatch`, the path from a proposed action to a tool.
-- The Conscience is an argument, `judge`, over whatever state `M` it keeps. What the dispatch does to
-- the outside is a list of effects, the latest first; whether a tool raises, and whether the audit
-- sink and the bus take what they are given, are functions of the effects before.
pub mod Gate
pub mod System
pub mod Audit
use Prim.Native.Char.{Char, code}
use Prim.Native.String.{◌++◌ as append_text}
use johnny.Prelude.{
  ℕ, String, Bool, true, false, Option, none, some, List, [], ◌∷◌, ◌||◌, ◌&&◌, eqb, if◌then◌else◌,
  ◌==◌,
}
use johnny.Prelude.Exec.{Outcome, returned, raised, Exec, pure, raise, ◌>>=◌, ◌>>◌}
use johnny.Json.{Json, null, bool, int, str, obj, Fields, end, field}
use johnny.Workspace.{WorkspaceEvent, new_event, WorkspaceItem}
use johnny.Llm.{LlmError}
use johnny.Effectors.Tools.{Tool, ToolResult, Registry, danger_text, validate_args, get}
use johnny.Effectors.Conscience.{ProposedAction, Choice, Verdict, allowed, choice_text}

-- What `vet` and `commit` can raise: `DispatchError`, a `ValidationError`, and what a collaborator
-- raises.
pub data Failure : Type 0 where
  no_tool : String → Failure
  invalid_args : String → Failure
  conscience_failed : LlmError → Failure
  tool_failed : String → Failure
  audit_failed : String → Failure
  broadcast_failed : String → Failure

-- The keyword arguments of `AuditSink.record`.
pub record AuditRow : Type 0 where
  pub tool : String
  pub args : Fields
  pub result : Option ToolResult
  pub conscience_verdict : Choice
  pub veto_reason : Option String
  pub goal_id : Option ℕ
  pub success : Bool

pub data Effect : Type 0 where
  consulted : ProposedAction → Outcome LlmError Verdict → Effect
  ran : Tool → Fields → Effect
  audited : AuditRow → Effect
  emitted : WorkspaceEvent → Effect

pub record DispatchOutcome : Type 0 where
  pub ran : Bool
  pub verdict : Verdict
  pub result : Option ToolResult
  pub summary : String

pub record VettedAction : Type 0 where
  pub action : ProposedAction
  pub tool : Tool
  pub validated : Fields
  pub verdict : Verdict

pub record Outside : Type 0 where
  pub run : List Effect → Tool → Fields → Outcome String ToolResult
  pub audit_error : List Effect → AuditRow → Option String
  pub broadcast_error : List Effect → WorkspaceEvent → Option String

pub record State (M : Type 0) : Type 0 where
  pub registry : Registry
  pub mind : M
  pub effects : List Effect

abbrev is_strippable : Char → Bool
is_strippable c = eqb (code c) b':' || eqb (code c) b' '

strip_left : String → String
strip_left String.[] = String.[]
strip_left (String.◌∷◌ c s) = if is_strippable c then strip_left s else String.◌∷◌ c s

strip_right : String → String
strip_right String.[] = String.[]
strip_right (String.◌∷◌ c s) =
    let rest = strip_right s in if is_strippable c && rest == "" then "" else String.◌∷◌ c rest

-- `f"vetoed: {reason}".strip(": ")`
unfoldable pub veto_summary : String → String
unfolding strip_left strip_right
veto_summary reason = strip_right (strip_left (append_text "vetoed: " reason))

abbrev reason_or_none : String → Option String
reason_or_none reason = if reason == "" then none else some reason

abbrev result_json : Option ToolResult → Json
result_json none = null
result_json (some r) = obj (
    field "success" (bool r.success)
      (field "output" (obj r.output) (field "summary" (str r.summary) end)))

abbrev goal_json : Option ℕ → Json
goal_json none = null
goal_json (some id) = int id

unfoldable pub action_event :
    String → ProposedAction → Verdict → Option ToolResult → Bool → WorkspaceEvent
action_event event_type action verdict result success = new_event "effectors" event_type (
    field "tool" (str action.tool) (
      field "danger" (str action.danger) (
        field "args" (obj action.args) (
          field "verdict" (str (choice_text verdict.verdict)) (
            field "reason" (str verdict.reason) (
              field "goal_id" (goal_json action.goal_id)
                (field "success" (bool success) (field "result" (result_json result) end))))))))

abbrev pub Dispatch : Type 0 → Type 0 → Type 0
Dispatch M = Exec (State M) Failure

abbrev pub veto_row : VettedAction → AuditRow
veto_row v = record {
  tool = v.action.tool;
  args = v.action.args;
  result = none;
  conscience_verdict = v.verdict.verdict;
  veto_reason = reason_or_none v.verdict.reason;
  goal_id = v.action.goal_id;
  success = false;
}

abbrev pub run_row : VettedAction → ToolResult → AuditRow
run_row v result = record {
  tool = v.action.tool;
  args = v.action.args;
  result = some result;
  conscience_verdict = v.verdict.verdict;
  veto_reason = none;
  goal_id = v.action.goal_id;
  success = result.success;
}

module _ {M : Type 0} (o : Outside) where
  abbrev pub happened : Effect → Dispatch M (Unit {0})
  happened e s = (returned tt, record s { effects = e ∷ s.effects })

  abbrev pub recorded : AuditRow → Option String → Dispatch M (Unit {0})
  recorded row none = happened (audited row)
  recorded row (some e) = raise (audit_failed e)

  -- `self._audit.record(…)`
  unfoldable pub record_row : AuditRow → Dispatch M (Unit {0})
  record_row row s = recorded row (o.audit_error s.effects row) s

  abbrev pub sent : WorkspaceEvent → Option String → Dispatch M (Unit {0})
  sent event none = happened (emitted event)
  sent event (some e) = raise (broadcast_failed e)

  -- `self._broadcaster.broadcast(…)` of `_emit`
  unfoldable pub emit : WorkspaceEvent → Dispatch M (Unit {0})
  emit event s = sent event (o.broadcast_error s.effects event) s

  abbrev pub ended : Outcome String ToolResult → Dispatch M ToolResult
  ended (returned result) = pure result
  ended (raised e) = raise (tool_failed e)

  -- `tool.run(validated)`
  unfoldable pub run_tool : Tool → Fields → Dispatch M ToolResult
  run_tool tool args s =
      let result = o.run s.effects tool args in
      ended result (record s { effects = ran tool args ∷ s.effects })

  -- The audit row, then the event: the end of both branches of `commit`.
  unfoldable pub report : AuditRow → WorkspaceEvent → DispatchOutcome → Dispatch M DispatchOutcome
  report row event outcome = record_row row >> (emit event >> pure outcome)

  unfoldable pub after_run : VettedAction → ToolResult → Dispatch M DispatchOutcome
  unfolding report
  after_run v result =
      report (run_row v result)
        (action_event "action.dispatched" v.action v.verdict (some result) result.success)
        (record { ran = true; verdict = v.verdict; result = some result; summary = result.summary })

  -- `commit`, by `verdict.allowed`
  unfoldable pub commit_by : Bool → VettedAction → Dispatch M DispatchOutcome
  unfolding after_run
  commit_by false v =
      report (veto_row v) (action_event "action.vetoed" v.action v.verdict none false) (record {
        ran = false;
        verdict = v.verdict;
        result = none;
        summary = veto_summary v.verdict.reason;
      })
  commit_by true v = run_tool v.tool v.validated >>= after_run v

  unfoldable pub commit : VettedAction → Dispatch M DispatchOutcome
  unfolding commit_by allowed
  commit v = commit_by (allowed v.verdict) v

  -- The end of `vet`, by the answer of the Conscience.
  unfoldable pub judged :
      ProposedAction → Tool → Fields → Outcome LlmError Verdict → Dispatch M VettedAction
  judged action tool args (raised x) = raise (conscience_failed x)
  judged action tool args (returned v) =
      pure (record { action = action; tool = tool; validated = args; verdict = v })

  module _ {W : Type 0}
      (judge : ProposedAction → List (WorkspaceItem W) → M → Outcome LlmError Verdict × M) where
    -- `self._conscience.vet(…)`, the call and its record
    unfoldable pub ask :
        ProposedAction → List (WorkspaceItem W) → State M → Outcome LlmError Verdict × State M
    ask action contents s =
        let (answer, mind) = judge action contents s.mind in
        (answer, record s { mind = mind; effects = consulted action answer ∷ s.effects })

    unfoldable pub consult :
        ProposedAction
        → Tool
        → List (WorkspaceItem W)
        → Outcome String Fields
        → Dispatch M VettedAction
    unfolding ask judged
    consult action tool contents (raised e) s = (raised (invalid_args e), s)
    consult action tool contents (returned args) s =
        let (answer, t) = ask action contents s in judged action tool args answer t

    unfoldable pub vet_with :
        ProposedAction → List (WorkspaceItem W) → Option Tool → Dispatch M VettedAction
    unfolding consult validate_args
    vet_with action contents none s = (raised (no_tool action.tool), s)
    vet_with action contents (some tool) s =
        consult (record action { danger = danger_text tool.danger }) tool contents
          (validate_args tool action.args) s

    unfoldable pub vet : ProposedAction → List (WorkspaceItem W) → Dispatch M VettedAction
    unfolding vet_with get
    vet action contents s = vet_with action contents (get action.tool s.registry) s

    unfoldable pub propose : ProposedAction → List (WorkspaceItem W) → Dispatch M DispatchOutcome
    unfolding vet commit
    propose action contents = vet action contents >>= commit
