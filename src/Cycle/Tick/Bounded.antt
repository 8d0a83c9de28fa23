-- ===== src/Cycle/Tick/Bounded.antt =====
-- The bottleneck: the contents of the workspace stay within its capacity.
use johnny.Prelude.{
  ℕ, ◌≤◌, Bool, true, false, Option, none, some, String, List, [], ◌∷◌, Dict, ◌&&◌, if◌then◌else◌,
}
use johnny.Prelude.Exec.{pure, ◌>>=◌, ◌>>◌}
use johnny.Float.{Float}
use johnny.Drives.Engine.{DriveEvent}
use johnny.Goals.Store.{Goal}
use johnny.Effectors.Tools.{ToolResult}
use johnny.Effectors.Dispatch.{VettedAction, DispatchOutcome}
use johnny.Cycle.Interval.{Tempo}
use johnny.Cycle.Scene.{
  Action, Call, broadcast, deliberated, vetted, committed, acted, settled, Answer, Collaborators,
  DeliberationResult, Scene, Stage, call, stage, emit, done, in_context,
}
use johnny.Cycle.Stages.{
  deliberate, deliberate_with, emit_goal, check, check_with, vet_action, vet_tool, proposed, act,
  act_on, act_by_tool, act_internally, dispatch_tool_action, succeeded, consolidate_web_read,
  settle_with, enqueue, with_agency,
}
use johnny.Cycle.Tick.{sense, decide, conclude, count_degraded, degraded_by, tick}
use johnny.Cycle.Tick.Calm.{Fits, FitsCall, sense-Quiet, conclude-Quiet}
use johnny.Cycle.Keeps.{Keeps, bind-Keeps, stage-Keeps, emit-Keeps}

module _ {W : Type 0} ⦃f : Float W⦄ (c : Collaborators W) (tempo : Tempo W) (capacity : ℕ) where
  Bound : Scene W → Scene W → Type 0
  Bound s t = Fits capacity s → Fits capacity t

  call-Bound :
      {R : Type 0} (k : Call W) (answer : Answer W R)
      → FitsCall capacity k
      → Keeps Bound (call k answer)
  unfolding call Bound
  call-Bound k answer fit s h = (h.0, (fit, h.1))

  seq :
      {A B : Type 0} (m : Stage W A) (g : A → Stage W B)
      → Keeps Bound m
      → ((a : A) → Keeps Bound (g a))
      → Keeps Bound (m >>= g)
  unfolding Bound
  seq m g hm hg = bind-Keeps Bound (λ s t u h k m. k (h m)) m g hm hg

  stage-Bound :
      (name : String) (m : Stage W (Unit {0}))
      → Keeps Bound m
      → (s : Scene W) → Bound s (stage name m s)
  unfolding Bound
  stage-Bound name m h s = stage-Keeps Bound (λ s t u h k m. k (h m)) name m (λ e t h. h) h s

  emit_goal-Bound : (goal : Option (Goal W)) → Keeps Bound (emit_goal c tempo capacity goal)
  unfolding Bound
  emit_goal-Bound none s h = h
  emit_goal-Bound (some goal) s h =
      emit-Keeps Bound (λ s t u h k m. k (h m)) c "deliberation" "goal.active" (some "deliberate")
        (λ name e s h. h) (call-Bound (broadcast "deliberation" "goal.active") c.broadcast tt)
        (λ s h. h) s h

  guarded :
      (run : Stage W (Unit {0})) → Keeps Bound run → Keeps Bound (with_agency c tempo capacity run)
  unfolding Bound
  guarded run h s = at s.full_agency
    where
      at : (agency : Bool) → Bound s ((if agency then run s else done s).1)
      at true = h s
      at false = λ k. k

  deliberate_with-Bound :
      (answer : Option (Answer W (DeliberationResult W)))
      → Keeps Bound (deliberate_with c tempo capacity answer)
  unfolding call emit Bound
  deliberate_with-Bound none s h = h
  deliberate_with-Bound (some answer) s h =
      guarded
        (λ s.
          (call (deliberated s.ctx.urges s.ctx.mood s.ctx.contents) answer >>= λ result.
          in_context (λ x. record x { goal = result.goal; action = result.action })
          >> emit_goal c tempo capacity result.goal)
            s)
        (λ s.
          seq (call (deliberated s.ctx.urges s.ctx.mood s.ctx.contents) answer)
            (λ result.
              in_context (λ x. record x { goal = result.goal; action = result.action })
              >> emit_goal c tempo capacity result.goal)
            (call-Bound (deliberated s.ctx.urges s.ctx.mood s.ctx.contents) answer tt)
            (λ result t.
              emit_goal-Bound result.goal
                (record t { ctx = record t.ctx { goal = result.goal; action = result.action } }))
            s)
        s h

  vet_tool-Bound :
      (answer : Answer W VettedAction) (action : Action) (tool : Option String)
      → Keeps Bound (vet_tool c tempo capacity answer action tool)
  unfolding call Bound
  vet_tool-Bound answer action none s h = h
  vet_tool-Bound answer action (some tool) s h =
      seq (call (vetted (proposed c tempo capacity action tool) s.ctx.contents) answer)
        (λ v. in_context (λ x. record x { vetted = some v }))
        (call-Bound (vetted (proposed c tempo capacity action tool) s.ctx.contents) answer tt)
        (λ v t k. k) s h

  vet_action-Bound :
      (answer : Answer W VettedAction) (action : Option Action)
      → Keeps Bound (vet_action c tempo capacity answer action)
  unfolding call Bound
  vet_action-Bound answer none s h = h
  vet_action-Bound answer (some action) s h = vet_tool-Bound answer action action.tool s h

  check_with-Bound :
      (answer : Option (Answer W VettedAction)) → Keeps Bound (check_with c tempo capacity answer)
  unfolding call Bound
  check_with-Bound none s h = h
  check_with-Bound (some answer) s h =
      guarded (λ t. vet_action c tempo capacity answer t.ctx.action t)
        (λ t. vet_action-Bound answer t.ctx.action t) s h

  enqueue-Bound : (events : List (DriveEvent W)) → Keeps Bound (enqueue c tempo capacity events)
  unfolding Bound
  enqueue-Bound events s h = h

  consolidate-Bound :
      (answer : Option (Answer W (Option (Unit {0})))) (tool : String) (result : ToolResult)
      → Keeps Bound (consolidate_web_read c tempo capacity answer tool result)
  unfolding call consolidate_web_read Bound
  consolidate-Bound none tool result s h = h
  consolidate-Bound (some answer) tool result s h = (h.0, (tt, h.1))

  succeeded-Bound :
      (tool : Option String) (outcome : DispatchOutcome) (result : Option ToolResult)
      → Keeps Bound (succeeded c tempo capacity tool outcome result)
  unfolding Bound
  succeeded-Bound none outcome none s h = h
  succeeded-Bound (some tool) outcome none s h = h
  succeeded-Bound none outcome (some result) s h = h
  succeeded-Bound (some tool) outcome (some result) s h = at _
    where
      at :
          (read : Bool)
          → Fits capacity
              ((if read
                  then consolidate_web_read c tempo capacity c.consolidate tool result
                  else pure (outcome.ran && result.success))
                s).1
      at true = consolidate-Bound c.consolidate tool result s h
      at false = h

  settle_with-Bound :
      (answer : Option (Answer W (List (DriveEvent W)))) (goal : Goal W) (summary : String)
      (success : Bool)
      → Keeps Bound (settle_with c tempo capacity answer goal summary success)
  unfolding Bound
  settle_with-Bound none goal summary success s h = h
  settle_with-Bound (some answer) goal summary success s h =
      seq (call (settled goal summary success) answer) (enqueue c tempo capacity)
        (call-Bound (settled goal summary success) answer tt) enqueue-Bound s h

  dispatch-Bound :
      (action : Action) (goal : Goal W) (v : Option VettedAction)
      → Keeps Bound (dispatch_tool_action c tempo capacity action goal v)
  unfolding Bound
  dispatch-Bound action goal none s h = h
  dispatch-Bound action goal (some v) s h =
      let success = λ (outcome : DispatchOutcome).
        succeeded c tempo capacity action.tool outcome outcome.result in
      let settle =
        λ (outcome : DispatchOutcome). settle_with c tempo capacity c.settle goal outcome.summary in
      seq (call (committed v) c.commit) (λ outcome. success outcome >>= settle outcome)
        (call-Bound (committed v) c.commit tt)
        (λ outcome.
          seq (success outcome) (settle outcome)
            (succeeded-Bound action.tool outcome outcome.result)
            (settle_with-Bound c.settle goal outcome.summary))
        s h

  act_internally-Bound :
      (answer : Option (Answer W (DeliberationResult W))) (action : Action) (goal : Goal W)
      → Keeps Bound (act_internally c tempo capacity answer action goal)
  unfolding Bound
  act_internally-Bound none action goal s h = h
  act_internally-Bound (some answer) action goal s h =
      let told = call (broadcast "effectors" "action.dispatched") c.broadcast in
      seq (call (acted action goal s.ctx.contents) c.act)
        (λ outcome. told >> enqueue c tempo capacity outcome.drive_events)
        (call-Bound (acted action goal s.ctx.contents) c.act tt)
        (λ outcome.
          seq told (λ _. enqueue c tempo capacity outcome.drive_events)
            (call-Bound (broadcast "effectors" "action.dispatched") c.broadcast tt)
            (λ _. enqueue-Bound outcome.drive_events))
        s h

  abbrev act_by_vetter : Option (Answer W VettedAction) → Action → Goal W → Stage W (Unit {0})
  act_by_vetter vet action goal s = elim vet [
    | none ↦ done s
    | some _ ↦ dispatch_tool_action c tempo capacity action goal s.ctx.vetted s
  ]

  act_by_tool-Bound :
      (tool : Option String) (action : Action) (goal : Goal W)
      → Keeps Bound (act_by_tool c tempo capacity tool action goal)
  unfolding Bound
  act_by_tool-Bound none action goal s h = act_internally-Bound c.deliberate action goal s h
  act_by_tool-Bound (some tool) action goal s h = at c.vet
    where
      at :
          (vet : Option (Answer W VettedAction)) → Fits capacity (act_by_vetter vet action goal s).1
      at none = h
      at (some _) = dispatch-Bound action goal s.ctx.vetted s h

  act_on-Bound :
      (action : Option Action) (goal : Option (Goal W))
      → Keeps Bound (act_on c tempo capacity action goal)
  unfolding Bound
  act_on-Bound none goal s h = h
  act_on-Bound (some action) none s h = h
  act_on-Bound (some action) (some goal) s h = act_by_tool-Bound action.tool action goal s h

  act-Bound : Keeps Bound (act c tempo capacity)
  unfolding act Bound
  act-Bound s h =
      guarded (λ t. act_on c tempo capacity t.ctx.action t.ctx.goal t)
        (λ t. act_on-Bound t.ctx.action t.ctx.goal t) s h

  decide-Bound : (s : Scene W) → Bound s (decide c tempo capacity s)
  unfolding decide deliberate check Bound
  decide-Bound s h = stage-Bound "act" (act c tempo capacity) act-Bound _ (
      stage-Bound "check" (check c tempo capacity) (check_with-Bound c.vet) _ (
        stage-Bound "deliberate" (deliberate c tempo capacity) (deliberate_with-Bound c.deliberate)
          s h))

  count_degraded-Bound : (s : Scene W) → Bound s (count_degraded c tempo capacity s)
  unfolding Bound
  count_degraded-Bound s h = at s.ctx.stage_errors
    where
      at : (errors : Dict String) → Fits capacity (degraded_by c tempo capacity errors s)
      at [] = h
      at (e ∷ es) = h

  -- A tick leaves at most `capacity` items in the contents of the workspace and hands the blackboard
  -- and its report no more than that, whatever attention selects, memory recalls or a stage raises,
  -- when this held of the scene the tick began with.
  pub tick-Fits :
      (s : Scene W)
      → Fits capacity s
      → Fits capacity (tick c tempo capacity s).1
        × ((tick c tempo capacity s).0.content_count ≤ capacity)
  unfolding tick Bound
  tick-Fits s h =
      let s1 = sense c tempo capacity s in
      let s2 = decide c tempo capacity s1 in
      let s3 = conclude c tempo capacity s2 in
      let fits = count_degraded-Bound s3 (
        (conclude-Quiet c tempo capacity s2).2
          (decide-Bound s1 ((sense-Quiet c tempo capacity s).2 h))) in
      (fits, fits.0)
