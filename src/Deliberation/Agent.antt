-- ===== src/Deliberation/Agent.antt =====
-- `Deliberation` of brain/agents/deliberation.py, over the models of the arbiter, the goal store and the
-- LLM router. The clock's readings are numbered; it is read once at each place where the source may
-- read it. The episodic memory answers by all that happened before, and may raise.
pub mod Cadence
pub mod Code
pub mod Settled
use Prim.Native.String.{◌++◌ as append_text}
use johnny.Prelude.{
  ℕ, suc, ◌+◌, String, Bool, true, false, not, ◌&&◌, ◌||◌, Option, none, some, List, [], ◌∷◌, ◌++◌,
  Dict, map, take, if◌then◌else◌, ◌==◌, leb,
}
use johnny.Prelude.Exec.{Outcome, returned, raised, Exec, pure, raise, ◌>>=◌, ◌>>◌}
use johnny.Prelude.Texts.{join, strip, take_text}
use johnny.Json.{Json, bool, str, arr, Items, nil, cons, Fields, end, field}
use johnny.Workspace.{WorkspaceItem}
use johnny.Float.{Float}
use johnny.Drives.Engine.{DriveEvent, Urge}
use johnny.Goals.Store.{Goal, Table, resolve}
use johnny.Goals.Arbiter.{Mood, Arbiter, arbitrate}
use johnny.Llm.{Role, text, Message, Completion, LlmError, unavailable, unavailable_by}
use johnny.Llm.Router.{Request, Outside, Config, State, complete}
use johnny.Cycle.Scene.{Action, ActionOutcome, DeliberationResult}
use johnny.Deliberation.Plan.{
  code_exec_tool, field_of, set_field, is_set, contents_of, query_from, internal_action, plan,
  Intensities, satisfaction_events, strip_code_fences, or_else,
}

-- The part of `Episode` that `_remember` sets
pub record Episode (W : Type 0) : Type 0 where
  pub kind : String
  pub content : String
  pub actors : List String
  pub emotion_tags : List String
  pub salience : W

-- What changes: `_last_acted`, the clock, the goals, the router and the episodic memory.
pub record Mind (W : Type 0) : Type 0 where
  pub last_acted : Option ℕ
  pub readings : ℕ
  pub goals : Table W
  pub router : State
  pub recalled : List (String × ℕ)
  pub written : List (Episode W)

pub record Routed : Type 0 where
  pub outside : Outside
  pub config : Config

-- What `Deliberation` is made with. Times are in microseconds; `show` is Python's repr of a text.
pub record Deliberation (W : Type 0) : Type 0 where
  pub router : Option Routed
  pub arbiter : Arbiter W
  pub tool_actions : Dict (String × Fields)
  pub prompt : String
  pub max_tokens : ℕ
  pub recall_k : ℕ
  pub min_interval : ℕ
  pub code_max_tokens : ℕ
  pub code_max_chars : ℕ
  pub intensities : Intensities W
  pub episode_salience : W
  pub clock : ℕ → ℕ
  pub show : String → String
  pub recall : Mind W → Outcome LlmError (List String)
  pub write : Mind W → Outcome LlmError (Unit {0})

abbrev pub Deliberating : Type 0 → Type 0 → Type 0
Deliberating W A = Exec (Mind W) LlmError A

abbrev pub default_system : String
default_system =
    "You are the deliberative, reflective inner voice of Johnny — a persistent synthetic being with his own drives and memory. Think in the first person, briefly and honestly. You are reasoning to yourself, not addressing a user."

abbrev pub text_or : String → String → String
text_or t fallback = if t == "" then fallback else t

abbrev pub kinds_of : {W : Type 0} → List (DriveEvent W) → Items
kinds_of [] = nil
kinds_of (e ∷ es) = cons (str e.kind) (kinds_of es)

module _ {W : Type 0} ⦃f : Float W⦄ (d : Deliberation W) where
  abbrev pub read_clock : Deliberating W ℕ
  read_clock m = (returned (d.clock m.readings), record m { readings = suc m.readings })

  abbrev pub request : ℕ → String → Request
  request max_tokens instruction = record {
    role = "deliberation";
    messages =
        record { role = Role.system; content = text (text_or d.prompt default_system) }
        ∷ record { role = Role.user; content = text instruction }
        ∷ [];
    schema = none;
    temperature = 70;
    max_tokens = some max_tokens;
  }

  -- A completion for the instruction, or an exception
  unfoldable pub ask : Routed → ℕ → String → Mind W → Outcome LlmError Completion × Mind W
  ask routed max_tokens instruction m =
      let (out, s) =
        complete routed.outside routed.config (request max_tokens instruction) m.router in
      (out, record m { router = s })

  abbrev pub elapsed : Option ℕ → ℕ → Bool
  elapsed none now = true
  elapsed (some t) now = leb (t + d.min_interval) now

  -- `_due`
  unfoldable pub due : Mind W → ℕ → Bool
  due m now = elapsed m.last_acted now

  -- `_formulate_code`
  abbrev pub code_instruction : Goal W → String → String
  code_instruction goal focus = append_text "You feel a pull to " (
      append_text goal.description (
        append_text
          ". Write a SHORT, self-contained Python 3 snippet you could run to explore or work on that — it runs in an isolated sandbox with NO network and only the standard library, and its stdout is what you'll see. Keep it well under 40 lines. What's on your mind: "
          (append_text focus ". Output ONLY the code, no prose, no fences.")))

  abbrev pub snippet_or_none : String → Option String
  snippet_or_none snippet = if snippet == "" then none else some snippet

  abbrev pub code_of : Outcome LlmError Completion → Outcome LlmError (Option String)
  code_of (returned done) =
      returned (snippet_or_none (take_text d.code_max_chars (strip_code_fences done.content)))
  code_of (raised (unavailable role)) = returned none
  code_of (raised (unavailable_by role cause)) = returned none
  code_of (raised x) = raised x

  abbrev pub formulate_by :
      Option Routed → Goal W → List (WorkspaceItem W) → Deliberating W (Option String)
  formulate_by none goal contents m = (returned none, m)
  formulate_by (some routed) goal contents m =
      let (out, m') =
        ask routed d.code_max_tokens (code_instruction goal (query_from goal contents)) m in
      (code_of out, m')

  unfoldable pub formulate_code : Goal W → List (WorkspaceItem W) → Deliberating W (Option String)
  unfolding ask query_from strip_code_fences take_text
  formulate_code goal contents = formulate_by d.router goal contents

  -- `_finalise_action`
  abbrev pub is_code : Option String → Bool
  is_code none = false
  is_code (some tool) = tool == code_exec_tool

  abbrev pub needs_code : Action → Bool
  needs_code action = is_code action.tool && not (is_set (field_of "code" action.tool_args))

  abbrev pub with_code : Action → Goal W → List (WorkspaceItem W) → Option String → Action
  with_code action goal contents none = internal_action goal contents
  with_code action goal contents (some code) = record action {
    tool_args = set_field "code" (str code) action.tool_args;
  }

  unfoldable pub finalise_action : Action → Goal W → List (WorkspaceItem W) → Deliberating W Action
  unfolding formulate_code internal_action set_field field_of
  finalise_action action goal contents =
      if needs_code action
      then (formulate_code goal contents >>= λ code. pure (with_code action goal contents code))
      else pure action

  -- The goal, with an action if one is due.
  abbrev pub act_on_goal :
      ℕ → List (WorkspaceItem W) → Option (Goal W) → Deliberating W (DeliberationResult W)
  act_on_goal reference contents none m = (returned (record { goal = none; action = none }), m)
  act_on_goal reference contents (some goal) m =
      (if due m reference
          then (finalise_action (plan d.tool_actions goal contents) goal contents >>= λ action.
              pure (record { goal = some goal; action = some action }))
          else pure (record { goal = some goal; action = none }))
        m

  -- The arbiter's part; `created` and `now` are the readings of its clock and of the store's.
  unfoldable pub arbitrate_goal :
      List (Urge W) → Option (Mood W) → ℕ → ℕ → ℕ → Deliberating W (Option (Goal W))
  arbitrate_goal urges mood reference created now m =
      let (goal, goals) = arbitrate d.arbiter mood urges reference created now m.goals in
      (returned goal, record m { goals = goals })

  abbrev pub reading_or : Option ℕ → Deliberating W ℕ
  reading_or none = read_clock
  reading_or (some now) = pure now

  unfoldable pub deliberate :
      List (Urge W)
      → Option (Mood W)
      → List (WorkspaceItem W)
      → Option ℕ
      → Deliberating W (DeliberationResult W)
  unfolding due finalise_action plan arbitrate_goal
  deliberate urges mood contents now = reading_or now >>= λ reference. read_clock >>= λ created.
      read_clock >>= λ stored.
      arbitrate_goal urges mood reference created stored >>= act_on_goal reference contents

  abbrev pub now_acting : Deliberating W (Unit {0})
  now_acting = read_clock >>= λ now. λ m. (returned tt, record m { last_acted = some now })

  abbrev pub resolve_goal : Option ℕ → Fields → Deliberating W (Unit {0})
  resolve_goal none outcome = pure tt
  resolve_goal (some id) outcome =
      read_clock >>= λ now. λ m. (returned tt, record m { goals = resolve id outcome now m.goals })

  abbrev pub eased : Goal W → Bool → List (DriveEvent W)
  eased goal success = if success then satisfaction_events d.intensities goal else []

  abbrev pub tool_outcome : String → Bool → List (DriveEvent W) → Fields
  tool_outcome summary success events = field "action" (str "tool") (
      field "summary" (str summary)
        (field "events" (arr (kinds_of events)) (field "success" (bool success) end)))

  unfoldable pub settle_tool_action : Goal W → String → Bool → Deliberating W (List (DriveEvent W))
  unfolding satisfaction_events resolve
  settle_tool_action goal summary success =
      let events = eased goal success in
      now_acting >> resolve_goal goal.id (tool_outcome summary success events) >> pure events

  -- `_think`
  abbrev pub thought_of : String → Outcome LlmError Completion → Outcome LlmError String
  thought_of fallback (returned done) = returned (text_or (strip done.content) fallback)
  thought_of fallback (raised (unavailable role)) = returned fallback
  thought_of fallback (raised (unavailable_by role cause)) = returned fallback
  thought_of fallback (raised x) = raised x

  abbrev pub think_by : Option Routed → String → String → Deliberating W String
  think_by none instruction fallback m = (returned fallback, m)
  think_by (some routed) instruction fallback m =
      let (out, m') = ask routed d.max_tokens instruction m in (thought_of fallback out, m')

  unfoldable pub think : String → String → Deliberating W String
  unfolding ask strip
  think instruction fallback = think_by d.router instruction fallback

  abbrev pub recall_episodes : String → Deliberating W (List String)
  recall_episodes query m =
      let asked = record m { recalled = (query, d.recall_k) ∷ m.recalled } in
      (d.recall asked, asked)

  abbrev pub recall_summary : String → List String → String
  recall_summary query [] =
      append_text "I went looking through my memories about "
        (append_text (d.show query) " but found little.")
  recall_summary query (e ∷ es) =
      append_text "I revisited what I remember about "
        (append_text (d.show query) (append_text ": " (join "; " (take 2 (e ∷ es)))))

  -- `_recall`
  unfoldable pub recall : Action → Deliberating W String
  unfolding join
  recall action =
      recall_episodes action.query >>= λ episodes. pure (recall_summary action.query episodes)

  abbrev pub takeaway : List String → Deliberating W String
  takeaway [] = pure "I tried to take stock of what I've learned, but it's still thin."
  takeaway (e ∷ es) =
      think
        (append_text
          "Review these fragments of your recent experience and note, in one or two first-person sentences, the single most useful takeaway:\n"
          (join "\n" (map (append_text "- ") (e ∷ es))))
        "I took stock of what I've been through lately."

  -- `_consolidate`
  unfoldable pub consolidate : Action → Deliberating W String
  unfolding think join
  consolidate action = recall_episodes (text_or action.query action.description) >>= takeaway

  abbrev pub focus_of : List (WorkspaceItem W) → String
  focus_of contents = text_or (join "; " (contents_of contents)) "the quiet"

  -- `_reflect`
  unfoldable pub reflect : Action → List (WorkspaceItem W) → Deliberating W String
  unfolding think join
  reflect action contents =
      if action.kind == "formulate_question"
      then think
          (append_text "You feel a pull to " (
            append_text action.description (
              append_text
                ". In one or two first-person sentences, formulate the question you most want to put to Dan right now. What's on your mind: "
                (append_text (focus_of contents) "."))))
          "I find myself with a question I'd like to ask Dan when he's next around."
      else think
          (append_text "You feel a pull to " (
            append_text action.description (
              append_text
                ". Reflect, in one or two first-person sentences, on that — given what's on your mind: "
                (append_text (focus_of contents) "."))))
          (append_text "I sat with the urge to "
            (append_text action.description " and turned it over in my mind."))

  -- `_execute`
  unfoldable pub execute : Action → List (WorkspaceItem W) → Deliberating W String
  unfolding recall consolidate reflect
  execute action contents =
      if action.kind == "recall"
      then recall action
      else if action.kind == "consolidate"
      then consolidate action
      else reflect action contents

  abbrev pub episode_of : String → Episode W
  episode_of summary = record {
    kind = "deliberation";
    content = summary;
    actors = "johnny" ∷ [];
    emotion_tags = [];
    salience = d.episode_salience;
  }

  -- `_remember`
  unfoldable pub remember : String → Deliberating W (Unit {0})
  remember summary m =
      let written = record m { written = episode_of summary ∷ m.written } in
      (d.write written, written)

  abbrev pub act_outcome : Action → String → List (DriveEvent W) → Fields
  act_outcome action summary events =
      field "action" (str action.kind)
        (field "summary" (str summary) (field "events" (arr (kinds_of events)) end))

  abbrev pub outcome_of : Action → Goal W → String → ActionOutcome W
  outcome_of action goal summary = record {
    action_kind = action.kind;
    success = true;
    summary = summary;
    drive_events = satisfaction_events d.intensities goal;
  }

  -- What `act` does with the summary
  abbrev pub conclude : Action → Goal W → String → Deliberating W (ActionOutcome W)
  conclude action goal summary =
      remember summary
      >> resolve_goal goal.id (act_outcome action summary (satisfaction_events d.intensities goal))
      >> pure (outcome_of action goal summary)

  unfoldable pub act : Action → Goal W → List (WorkspaceItem W) → Deliberating W (ActionOutcome W)
  unfolding execute remember satisfaction_events resolve
  act action goal contents = now_acting >> execute action contents >>= conclude action goal
