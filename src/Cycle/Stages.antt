-- ===== src/Cycle/Stages.antt =====
-- The ten stages of a tick, the methods of `CognitiveCycle` in brain/cycle.py.
use johnny.Prelude.{
  ℕ, String, Bool, true, false, Option, none, some, List, [], ◌∷◌, ◌++◌, if◌then◌else◌, ◌==◌, ◌&&◌,
  take, any,
}
use johnny.Prelude.Exec.{Outcome, returned, raised, pure, ◌>>=◌, ◌>>◌}
use johnny.Prelude.Sort.{sort_desc}
use johnny.Workspace.{WorkspaceItem}
use johnny.Float.{Float}
use johnny.Drives.Engine.{DriveEvent, DriveReading, Urge, is_sleep_signal}
use johnny.Goals.Store.{Goal}
use johnny.Goals.Arbiter.{Mood}
use johnny.Effectors.Tools.{ToolResult}
use johnny.Effectors.Conscience.{ProposedAction}
use johnny.Effectors.Dispatch.{VettedAction, DispatchOutcome}
use johnny.Cycle.Interval.{Tempo, modulate_interval, build_attention_bias}
use johnny.Cycle.Scene.{
  Action, DeliberationResult, broadcast, perceived, drives_stepped, appraised, context_set,
  put_working, decayed_working, read_working, Working, selected, contents_set, recalled, narrated,
  deliberated, vetted, committed, acted, consolidated, settled, learned, Answer, Collaborators,
  Stage, call, modify, in_context, done, emit,
}

abbrev pub is_input : {W : Type 0} → WorkspaceItem W → Bool
is_input item = item.kind == "input"

module _ {W : Type 0} ⦃f : Float W⦄ (c : Collaborators W) (tempo : Tempo W) (capacity : ℕ) where
  unfoldable pub emit_percepts : List (WorkspaceItem W) → Stage W (Unit {0})
  unfolding emit
  emit_percepts [] = done
  emit_percepts (p ∷ ps) = emit c "sensorium" "percept" (some "perceive") >> emit_percepts ps

  abbrev pub perceive_with : Option (Answer W (List (WorkspaceItem W))) → Stage W (Unit {0})
  perceive_with none = done
  perceive_with (some answer) = call perceived answer >>= λ percepts.
      in_context (λ x. record x { percepts = percepts }) >> emit_percepts percepts

  unfoldable pub perceive : Stage W (Unit {0})
  unfolding call emit_percepts
  perceive = perceive_with c.perceive

  abbrev pub interactions : List (WorkspaceItem W) → List (DriveEvent W)
  interactions [] = []
  interactions (p ∷ ps) =
      let rest = interactions ps in
      if is_input p then record { kind = "interaction"; intensity = f.one } ∷ rest else rest

  -- `_collect_events`, and its result put into the context
  unfoldable pub collect_events : Stage W (Unit {0})
  collect_events = modify (λ s. record s {
    pending_events = [];
    ctx = record s.ctx { events = s.pending_events ++ interactions s.ctx.percepts };
  })

  unfoldable pub emit_urges : List (Urge W) → Stage W (Unit {0})
  unfolding emit is_sleep_signal
  emit_urges [] = done
  emit_urges (u ∷ us) =
      emit c "drives" (if is_sleep_signal u then "drive.sleep_signal" else "drive.urge")
        (some "appraise")
      >> emit_urges us

  abbrev pub step_drives_with : Option (Answer W (List (DriveReading W))) → Stage W (Unit {0})
  step_drives_with none = done
  step_drives_with (some answer) = λ s.
      (call (drives_stepped s.ctx.events) answer >>= λ drives.
      modify (λ t. record t {
        last_urges = c.urges drives;
        ctx = record t.ctx { drives = drives; urges = c.urges drives };
      })
      >> emit c "drives" "drive.state" (some "appraise")
      >> emit_urges (c.urges drives))
        s

  abbrev pub appraise_with : Option (Answer W (Mood W)) → Stage W (Unit {0})
  appraise_with none = done
  appraise_with (some answer) = λ s.
      (call (appraised s.ctx.percepts s.ctx.drives s.ctx.events) answer >>= λ mood.
      in_context (λ x. record x { mood = some mood }) >> emit c "affect" "mood" (some "appraise"))
        s

  -- `_apply_affective_context`, whose setters keep what they are given
  unfoldable pub apply_affective_context : Stage W (Unit {0})
  unfolding build_attention_bias
  apply_affective_context = modify (λ s. record s {
    calls = context_set (build_attention_bias tempo s.ctx.mood s.ctx.drives) s.ctx.mood ∷ s.calls;
  })

  unfoldable pub set_interval : Stage W (Unit {0})
  unfolding modulate_interval
  set_interval =
      modify (λ s. record s { next_interval = modulate_interval tempo s.ctx.mood s.ctx.drives })

  unfoldable pub appraise : Stage W (Unit {0})
  unfolding call emit emit_urges collect_events apply_affective_context set_interval
  appraise =
      collect_events
      >> (step_drives_with c.step_drives
          >> (appraise_with c.appraise >> (apply_affective_context >> set_interval)))

  unfoldable pub put_all : Working W → List (WorkspaceItem W) → Stage W (Unit {0})
  unfolding call
  put_all memory [] = done
  put_all memory (p ∷ ps) = call (put_working p) memory.put >> put_all memory ps

  -- `_refresh_working_memory`
  abbrev pub refresh_with : Option (Working W) → Stage W (List (WorkspaceItem W))
  refresh_with none = λ s. (returned s.ctx.percepts, s)
  refresh_with (some memory) = λ s.
      (put_all memory s.ctx.percepts
          >> (call decayed_working memory.decay >> call read_working memory.contents))
        s

  abbrev pub select_with :
      Option (Answer W (List (WorkspaceItem W)))
      → List (WorkspaceItem W)
      → Stage W (List (WorkspaceItem W))
  select_with none working = λ s. (returned s.ctx.percepts, s)
  select_with (some answer) working = λ s. call (selected working s.ctx.percepts) answer s

  -- The bottleneck: the first `capacity` items go onto the blackboard.
  unfoldable pub put_contents : List (WorkspaceItem W) → Stage W (Unit {0})
  unfolding call
  put_contents items =
      in_context (λ x. record x { contents = take capacity items })
      >> call (contents_set (take capacity items)) c.set_contents

  unfoldable pub attend : Stage W (Unit {0})
  unfolding call emit put_contents put_all
  attend = refresh_with c.working >>= λ working. select_with c.select working >>= λ items.
      put_contents items >> emit c "attention" "attention.selected" (some "attend")

  abbrev pub join_recalled : List (WorkspaceItem W) → Stage W (Unit {0})
  join_recalled [] = done
  join_recalled (r ∷ rs) = λ s.
      (put_contents (sort_desc f.lt (λ item. item.salience) (s.ctx.contents ++ r ∷ rs))
          >> emit c "memory" "recall" (some "recall"))
        s

  abbrev pub recall_with : Option (Answer W (List (WorkspaceItem W))) → Stage W (Unit {0})
  recall_with none = done
  recall_with (some answer) = λ s. (call (recalled s.ctx.contents) answer >>= join_recalled) s

  unfoldable pub recall : Stage W (Unit {0})
  unfolding call emit put_contents
  recall = recall_with c.recall

  abbrev pub emit_thought : Option String → Stage W (Unit {0})
  emit_thought none = done
  emit_thought (some text) =
      if text == "" then done else emit c "narrator" "thought" (some "narrate")

  abbrev pub narrate_with : Option (Answer W (Option String)) → Stage W (Unit {0})
  narrate_with none = done
  narrate_with (some answer) = λ s.
      (call (narrated s.ctx.contents) answer >>= λ thought.
      in_context (λ x. record x { thought = thought }) >> emit_thought thought)
        s

  unfoldable pub narrate : Stage W (Unit {0})
  unfolding call emit
  narrate = narrate_with c.narrate

  abbrev pub emit_goal : Option (Goal W) → Stage W (Unit {0})
  emit_goal none = done
  emit_goal (some goal) = emit c "deliberation" "goal.active" (some "deliberate")

  -- The guard on full agency, which three stages share.
  abbrev pub with_agency : Stage W (Unit {0}) → Stage W (Unit {0})
  with_agency run = λ s. if s.full_agency then run s else done s

  abbrev pub deliberate_with : Option (Answer W (DeliberationResult W)) → Stage W (Unit {0})
  deliberate_with none = done
  deliberate_with (some answer) = with_agency (λ s.
      (call (deliberated s.ctx.urges s.ctx.mood s.ctx.contents) answer >>= λ result.
      in_context (λ x. record x { goal = result.goal; action = result.action })
      >> emit_goal result.goal)
        s)

  unfoldable pub deliberate : Stage W (Unit {0})
  unfolding call emit
  deliberate = deliberate_with c.deliberate

  abbrev pub proposed : Action → String → ProposedAction
  proposed action tool = record {
    tool = tool;
    args = action.tool_args;
    danger = "safe";
    goal_id = action.goal_id;
    goal_description = action.description;
  }

  abbrev pub vet_tool : Answer W VettedAction → Action → Option String → Stage W (Unit {0})
  vet_tool answer action none = done
  vet_tool answer action (some tool) = λ s.
      (call (vetted (proposed action tool) s.ctx.contents) answer >>= λ v.
      in_context (λ x. record x { vetted = some v }))
        s

  abbrev pub vet_action : Answer W VettedAction → Option Action → Stage W (Unit {0})
  vet_action answer none = done
  vet_action answer (some action) = vet_tool answer action action.tool

  abbrev pub check_with : Option (Answer W VettedAction) → Stage W (Unit {0})
  check_with none = done
  check_with (some answer) = with_agency (λ s. vet_action answer s.ctx.action s)

  unfoldable pub check : Stage W (Unit {0})
  unfolding call
  check = check_with c.vet

  -- `enqueue_drive_event` for each event
  abbrev pub enqueue : List (DriveEvent W) → Stage W (Unit {0})
  enqueue events = modify (λ s. record s { pending_events = s.pending_events ++ events })

  abbrev web_read_tools : List String
  web_read_tools = "web_fetch" ∷ "web_search" ∷ "news" ∷ []

  abbrev is_remembered : Outcome String (Option (Unit {0})) → Bool
  is_remembered (returned (some _)) = true
  is_remembered (returned none) = false
  is_remembered (raised _) = false

  -- `_consolidate_web_read`
  unfoldable pub consolidate_web_read :
      Option (Answer W (Option (Unit {0}))) → String → ToolResult → Stage W Bool
  unfolding call
  consolidate_web_read none tool result s = (returned false, s)
  consolidate_web_read (some answer) tool result s =
      let (r, t) = call (consolidated tool result.output) answer s in
      (returned (is_remembered r), t)

  abbrev pub succeeded : Option String → DispatchOutcome → Option ToolResult → Stage W Bool
  succeeded tool outcome none = pure false
  succeeded none outcome (some result) = pure (outcome.ran && result.success)
  succeeded (some tool) outcome (some result) =
      if (outcome.ran && result.success) && any (λ name. name == tool) web_read_tools
      then consolidate_web_read c.consolidate tool result
      else pure (outcome.ran && result.success)

  abbrev pub settle_with :
      Option (Answer W (List (DriveEvent W))) → Goal W → String → Bool → Stage W (Unit {0})
  settle_with none goal summary success = done
  settle_with (some answer) goal summary success =
      call (settled goal summary success) answer >>= enqueue

  -- `_dispatch_tool_action`
  abbrev pub dispatch_tool_action : Action → Goal W → Option VettedAction → Stage W (Unit {0})
  dispatch_tool_action action goal none = done
  dispatch_tool_action action goal (some v) = call (committed v) c.commit >>= λ outcome.
      succeeded action.tool outcome outcome.result >>= λ success.
      settle_with c.settle goal outcome.summary success

  abbrev pub act_internally :
      Option (Answer W (DeliberationResult W)) → Action → Goal W → Stage W (Unit {0})
  act_internally none action goal = done
  act_internally (some _) action goal = λ s.
      (call (acted action goal s.ctx.contents) c.act >>= λ outcome.
      call (broadcast "effectors" "action.dispatched") c.broadcast >> enqueue outcome.drive_events)
        s

  abbrev pub act_by_tool : Option String → Action → Goal W → Stage W (Unit {0})
  act_by_tool none action goal = act_internally c.deliberate action goal
  act_by_tool (some _) action goal =
      λ s. elim c.vet [ none ↦ done s | some _ ↦ dispatch_tool_action action goal s.ctx.vetted s ]

  abbrev pub act_on : Option Action → Option (Goal W) → Stage W (Unit {0})
  act_on none goal = done
  act_on (some action) none = done
  act_on (some action) (some goal) = act_by_tool action.tool action goal

  unfoldable pub act : Stage W (Unit {0})
  unfolding call consolidate_web_read
  act = with_agency (λ s. act_on s.ctx.action s.ctx.goal s)

  abbrev pub learn_with : Option (Answer W (Unit {0})) → Stage W (Unit {0})
  learn_with none = done
  learn_with (some answer) = λ s. call (learned s.ctx.contents s.ctx.thought) answer s

  unfoldable pub learn : Stage W (Unit {0})
  unfolding call
  learn = learn_with c.learn

  unfoldable pub broadcast_state : Stage W (Unit {0})
  unfolding emit
  broadcast_state = emit c "cycle" "state" (some "state")
