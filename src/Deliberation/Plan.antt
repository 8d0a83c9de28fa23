-- ===== src/Deliberation/Plan.antt =====
-- The rule-based part of brain/agents/deliberation.py: what to do for a goal, and what it eases.
use johnny.Prelude.{
  zero, suc, String, Bool, true, false, not, ◌||◌, Option, none, some, List, [], ◌∷◌, Dict, lookup,
  map, take, select, if◌then◌else◌, ◌==◌,
}
use johnny.Prelude.Texts.{join, strip, splitlines}
use text.Mathlib.Text.{starts_with}
use johnny.Json.{Json, null, bool, int, num, str, arr, nil, obj, Fields, end, field}
use johnny.Workspace.{WorkspaceItem}
use johnny.Drives.Engine.{DriveEvent}
use johnny.Goals.Store.{Goal}
use johnny.Cycle.Scene.{Action}

abbrev pub code_exec_tool : String
code_exec_tool = "code_exec"

abbrev pub drive_action : Dict String
drive_action =
    ("curiosity", "reflect")
    ∷ ("boredom", "recall")
    ∷ ("connection", "formulate_question")
    ∷ ("mastery", "consolidate")
    ∷ ("coherence", "reflect")
    ∷ ("continuity", "reflect")
    ∷ []

abbrev pub tool_query_arg : Dict String
tool_query_arg = ("web_search", "query") ∷ ("news", "topic") ∷ ("memory_search", "query") ∷ []

-- `DEFAULT_TOOL_ACTIONS`
abbrev pub default_tool_actions : Dict (String × Fields)
default_tool_actions =
    ("curiosity", ("news", end))
    ∷ ("boredom", ("web_search", end))
    ∷ ("coherence", ("memory_search", end))
    ∷ ("mastery", ("code_exec", end))
    ∷ []

-- A Python dict of JSON values: reading a key, and setting one.
unfoldable pub field_of : String → Fields → Option Json
field_of k end = none
field_of k (field j v fs) = if j == k then some v else field_of k fs

unfoldable pub set_field : String → Json → Fields → Fields
set_field k v end = field k v end
set_field k v (field j w fs) = if j == k then field j v fs else field j w (set_field k v fs)

-- Python's truth of a value; of the numbers that are not natural, zero is false.
abbrev pub is_true : Json → Bool
is_true null = false
is_true (bool b) = b
is_true (int zero) = false
is_true (int (suc n)) = true
is_true (num t) = not (t == "0.0" || t == "-0.0")
is_true (str t) = not (t == "")
is_true (arr nil) = false
is_true (arr _) = true
is_true (obj end) = false
is_true (obj _) = true

-- `action.tool_args.get("code")`, as a condition
abbrev pub is_set : Option Json → Bool
is_set none = false
is_set (some v) = is_true v

abbrev pub or_else : {A : Type 0} → Option A → A → A
or_else none a = a
or_else (some b) a = b

abbrev pub with_query : String → Fields → Option String → Fields
with_query query args none = args
with_query query args (some k) = elim (field_of k args) [
  | none ↦ set_field k (str query) args
  | some v ↦ args
]

module _ {W : Type 0} where
  abbrev pub is_notable : WorkspaceItem W → Bool
  is_notable item = not (item.kind == "ambient")

  abbrev pub contents_of : List (WorkspaceItem W) → List String
  contents_of items = map (λ item. item.content) (select is_notable items)

  abbrev pub joined_query : Goal W → List String → String
  joined_query goal [] = goal.description
  joined_query goal (c ∷ cs) = join " " (take 3 (c ∷ cs))

  -- `_query_from`
  unfoldable pub query_from : Goal W → List (WorkspaceItem W) → String
  unfolding join
  query_from goal contents = joined_query goal (contents_of contents)

  -- `_internal_action`
  unfoldable pub internal_action : Goal W → List (WorkspaceItem W) → Action
  unfolding query_from
  internal_action goal contents = record {
    kind = or_else (lookup goal.source drive_action) "reflect";
    goal_id = goal.id;
    goal_source = goal.source;
    description = goal.description;
    query = query_from goal contents;
    tool = none;
    tool_args = end;
  }

  abbrev pub tool_action : Goal W → List (WorkspaceItem W) → String × Fields → Action
  tool_action goal contents (tool, args) = record {
    kind = tool;
    goal_id = goal.id;
    goal_source = goal.source;
    description = goal.description;
    query = "";
    tool = some tool;
    tool_args = with_query (query_from goal contents) args (lookup tool tool_query_arg);
  }

  abbrev pub plan_by : Goal W → List (WorkspaceItem W) → Option (String × Fields) → Action
  plan_by goal contents none = internal_action goal contents
  plan_by goal contents (some proposal) = tool_action goal contents proposal

  unfoldable pub plan : Dict (String × Fields) → Goal W → List (WorkspaceItem W) → Action
  unfolding internal_action query_from field_of set_field
  plan tool_actions goal contents = plan_by goal contents (lookup goal.source tool_actions)

-- The floats of `_DRIVE_SATISFACTION`
pub record Intensities (W : Type 0) : Type 0 where
  pub full : W
  pub connection : W
  pub mastery : W
  pub continuity : W

module _ {W : Type 0} (i : Intensities W) where
  unfoldable pub drive_satisfaction : Dict (DriveEvent W)
  drive_satisfaction =
      ("curiosity", record { kind = "learning"; intensity = i.full })
      ∷ ("boredom", record { kind = "learning"; intensity = i.full })
      ∷ ("connection", record { kind = "interaction"; intensity = i.connection })
      ∷ ("mastery", record { kind = "success"; intensity = i.mastery })
      ∷ ("coherence", record { kind = "reflection"; intensity = i.full })
      ∷ ("continuity", record { kind = "persistence_confirmed"; intensity = i.continuity })
      ∷ []

  abbrev pub events_by : Option (DriveEvent W) → List (DriveEvent W)
  events_by none = []
  events_by (some event) = event ∷ []

  -- `_satisfaction_events`
  unfoldable pub satisfaction_events : Goal W → List (DriveEvent W)
  unfolding drive_satisfaction
  satisfaction_events goal = events_by (lookup goal.source drive_satisfaction)

abbrev pub is_fence : String → Bool
is_fence line = starts_with line "```"

abbrev pub drop_opening : List String → List String
drop_opening [] = []
drop_opening (l ∷ ls) = if is_fence l then ls else l ∷ ls

unfoldable pub drop_closing : List String → List String
unfolding strip
drop_closing [] = []
drop_closing (l ∷ []) = if is_fence (strip l) then [] else l ∷ []
drop_closing (l ∷ k ∷ ls) = l ∷ drop_closing (k ∷ ls)

-- `_strip_code_fences`
unfoldable pub strip_code_fences : String → String
unfolding strip splitlines drop_closing join
strip_code_fences text =
    let stripped = strip text in
    if is_fence stripped
    then strip (join "\n" (drop_closing (drop_opening (splitlines stripped))))
    else stripped
