-- ===== src/Effectors/Tests.antt =====
-- The dispatch, the Conscience, the belt and the scheduler at concrete inputs.
use johnny.Prelude.{
  map, ◌==◌, ℕ, ◌+◌, ◌≤◌, ◌≡◌, refl, String, true, false, Option, none, some, List, [], ◌∷◌, map,
  count, select, ltb, if◌then◌else◌, arith,
}
use johnny.Prelude.Exec.{Outcome, returned, raised}
use johnny.Prelude.Sort.{IsDesc}
use johnny.Json.{Fields, end}
use johnny.Workspace.{WorkspaceItem}
use johnny.Llm.{LlmError}
use johnny.Llm.Routing.{ModelStep, chain_for}
use johnny.Llm.Router
use johnny.Llm.Router.{new_breakers, complete, validate_routing, unknown_provider}
use johnny.Llm.Router.Counts.{NoCrash}
use johnny.Llm.Router.Errors.{new_breakers-HasBreakers}
use johnny.Effectors.Tools.{DangerClass, Tool, ToolResult, get, register, IsNamed}
use johnny.Effectors.Conscience.{
  ProposedAction, Choice, Verdict, Conscience, vet, vetting_request, allowed,
}
use johnny.Effectors.Conscience.Closed.{Judged, vet-Judged}
use johnny.Effectors.Dispatch
use johnny.Effectors.Dispatch.{
  Effect, VettedAction, DispatchOutcome, Outside, State, commit, tool_failed,
}
use johnny.Effectors.Dispatch.Gate.{Gated}
use johnny.Effectors.Dispatch.System.{here, next, vets, commits, registers, Says, Reach-Gated}
use johnny.Effectors.Dispatch.Audit.{runs, rows, events, LatestRow, Tells, Results, commit_effects}
use johnny.Effectors.Scheduler.{
  ScheduledWakeup, WakeupTable, fire_due, due_pending, is_due, as_fired, status_pending,
}
use johnny.Effectors.Scheduler.Keyed.{IsKeyed, fire_if_due}
use johnny.Effectors.Scheduler.Once.{Turn, scheduled, checked, perform_all, has_fired, fires-once}
use johnny.Sensorium.{RawInput, InputQueue}
use johnny.Effectors.Scheduler.Due.{Pushed, fire_due_lem}
use mathlib.Core.List.{Perm}

abbrev noop : Tool
noop = record { name = "noop"; danger = DangerClass.safe; validate = λ raw. returned raw }

abbrev echo_result : ToolResult
echo_result = record { success = true; output = end; summary = "echoed" }

abbrev calm : Dispatch.Outside
calm = record {
  run = λ es tool args. returned echo_result;
  audit_error = λ es row. none;
  broadcast_error = λ es event. none;
}

abbrev breaking : Dispatch.Outside
breaking = record calm { run = λ es tool args. raised "boom" }

abbrev approving : ProposedAction → List (WorkspaceItem ℕ) → ℕ → Outcome LlmError Verdict × ℕ
approving action contents mind =
    (returned (record { verdict = Choice.allow; reason = "fine" }), mind)

abbrev an_action : ProposedAction
an_action = record {
  tool = "noop";
  args = end;
  danger = "safe";
  goal_id = some 1;
  goal_description = "";
}

abbrev an_approval : VettedAction
an_approval = record {
  action = an_action;
  tool = noop;
  validated = end;
  verdict = record { verdict = Choice.allow; reason = "fine" };
}

abbrev empty_state : State ℕ
empty_state = record { registry = []; mind = 0; effects = [] }

abbrev ready_state : State ℕ
ready_state = record { registry = ("noop", noop) ∷ []; mind = 0; effects = [] }

empty-IsNamed : IsNamed []
unfolding get
empty-IsNamed name tool e = ground (arith, e)

-- The tool is registered, an action is vetted, and committed twice.
Reach-Gated_example :
    Gated
      (Says calm approving)
      (commit calm an_approval
        (commit calm an_approval (record ready_state {
          effects = Effect.consulted an_action (returned an_approval.verdict) ∷ [];
        })).1).1.effects
unfolding register Dispatch.vet get
Reach-Gated_example =
    Reach-Gated calm approving {s = empty_state}
      (next
        (next
          (next (next here (registers noop {tools = ready_state.registry} refl))
            (vets an_action [] refl))
          (commits [] an_approval [] refl))
        (commits [] an_approval [] refl))
      refl empty-IsNamed

commit_effects_example :
    let t = (commit calm an_approval ready_state).1 in
    let out : DispatchOutcome = record {
      ran = true;
      verdict = an_approval.verdict;
      result = some echo_result;
      summary = "echoed";
    } in
    (out.ran ≡ allowed an_approval.verdict)
    × (out.verdict ≡ an_approval.verdict)
    × (runs t.effects ≡ 0 + (if allowed an_approval.verdict then 1 else 0))
    × (rows t.effects ≡ 0 + 1)
    × (events t.effects ≡ 0 + 1)
    × LatestRow (Tells an_approval out) t.effects
    × Results calm an_approval ready_state (allowed an_approval.verdict) out
unfolding commit Dispatch.run_tool Dispatch.record_row Dispatch.emit
commit_effects_example =
    commit_effects calm an_approval ready_state (commit calm an_approval ready_state).1
      (record {
        ran = true;
        verdict = an_approval.verdict;
        result = some echo_result;
        summary = "echoed";
      })
      refl

-- No provider is left: the circuit of the only one times out.
abbrev silent : Router.Outside
silent = record {
  reply = λ h call. Router.Reply.timed_out "slow";
  time = λ h. 100;
  timer_ms = λ h. 7;
  name = λ key. key;
  is_exhausted = λ h. returned false;
}

abbrev one_step : List ModelStep
one_step = record { provider = "ollama"; model = "llama3" } ∷ []

abbrev one_provider : Router.Config
one_provider = record {
  providers = "ollama" ∷ [];
  roles = ("default", one_step) ∷ [];
  schema_retries = 1;
  has_budget_gate = false;
}

abbrev fresh : Router.State
fresh = record { breakers = new_breakers ("ollama" ∷ []) 3 30; history = [] }

abbrev agent : Conscience
agent = record { prompt = "You are his conscience."; max_tokens = some 200 }

abbrev unparsed : String → Option Verdict
unparsed content = none

abbrev dumped : Fields → String
dumped args = "{}"

silent-NoCrash : NoCrash silent
silent-NoCrash h call e = ground (arith, e)

vet-Judged_example :
    (v : Verdict) × ((vet dumped unparsed silent one_provider agent {W = ℕ} an_action [] fresh).0
      ≡ returned v)
    × Judged unparsed
        (complete silent one_provider
          (vetting_request dumped unparsed {W = ℕ} agent an_action [])
          fresh).0
        v
unfolding chain_for validate_routing unknown_provider
vet-Judged_example =
    vet-Judged {W = ℕ} dumped unparsed silent one_provider agent an_action [] one_step fresh
      silent-NoCrash (λ h x e. cc e) refl refl (new_breakers-HasBreakers ("ollama" ∷ []) 3 30)

abbrev wakeup : ℕ → ℕ → ScheduledWakeup
wakeup id fire_at = record {
  id = id;
  fire_at = fire_at;
  reason = "follow up";
  status = status_pending;
  created_at = 0;
}

abbrev two_wakeups : WakeupTable
two_wakeups = record { next_id = 3; rows = wakeup 1 50 ∷ wakeup 2 20 ∷ [] }

two_wakeups-IsKeyed : IsKeyed two_wakeups
two_wakeups-IsKeyed k = ground arith

-- The queue takes one input and no second.
abbrev one_place : InputQueue → RawInput → Option String
one_place [] input = none
one_place (_ ∷ _) input = some "full"

abbrev closed_queue : InputQueue → RawInput → Option String
closed_queue queue input = some "connection lost"

abbrev some_turns : List Turn
some_turns = checked 30 ∷ scheduled 5 "again" 31 31 ∷ checked 60 ∷ checked 70 ∷ []

fires-once_example :
    let (table, queue) = perform_all one_place some_turns two_wakeups [] in
    count (λ (input : RawInput). input.raw == "follow up") queue + 0
    ≤ 0 + count (has_fired (λ (input : RawInput). input.raw == "follow up")) table.rows
fires-once_example =
    fires-once one_place some_turns two_wakeups [] two_wakeups-IsKeyed
      (λ input. input.raw == "follow up")

fire_due_lem_example :
    let (result, (table, queue)) = fire_due one_place 60 two_wakeups [] in
    let due = due_pending 60 two_wakeups.rows in
    Perm due (select (is_due 60) two_wakeups.rows)
    × IsDesc (λ a b. ltb b a) (λ row. row.fire_at) due
    × (table.next_id ≡ 3)
    × (table.rows ≡ map (fire_if_due 60) two_wakeups.rows)
    × Pushed one_place (map as_fired due) (map as_fired due) [] result queue
fire_due_lem_example = fire_due_lem one_place 60 two_wakeups [] two_wakeups-IsKeyed
