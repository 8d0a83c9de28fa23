-- ===== src/Deliberation/Agent/Cadence.antt =====
-- Acting sets the clock that holds the next action back.
use johnny.Prelude.{
  arith, ℕ, suc, ◌+◌, ◌<◌, ◌≡◌, refl, ◌∙◌, String, Bool, false, Option, none, some, List, [], ◌∷◌,
  Bool-cases, inl, inr, ◌==◌,
}
use johnny.Prelude.Exec.{Outcome, returned, raised, bind_lem, ◌>>=◌, ◌>>◌, pure}
use johnny.Json.{Fields}
use johnny.Workspace.{WorkspaceItem}
use johnny.Float.{Float}
use johnny.Drives.Engine.{Urge}
use johnny.Goals.Store.{Goal}
use johnny.Goals.Arbiter.{Mood, arbitrate}
use johnny.Llm.{LlmError}
use johnny.Cycle.Scene.{Action, DeliberationResult}
use johnny.Deliberation.Agent.{
  Mind, Routed, Deliberation, Deliberating, ask, act, settle_tool_action, deliberate, due, execute,
  recall, consolidate, reflect, think, think_by, remember, resolve_goal, takeaway, recall_episodes,
  recall_summary, act_on_goal, arbitrate_goal, eased, conclude, act_outcome, outcome_of,
  tool_outcome,
}
use johnny.Deliberation.Plan.{satisfaction_events}

module _ {W : Type 0} ⦃f : Float W⦄ (d : Deliberation W) where
  -- A computation that leaves the time of the last action alone, however it ends.
  abbrev Steady : {A : Type 0} → Deliberating W A → Type 0
  Steady m = (s : Mind W) → (m s).1.last_acted ≡ s.last_acted

  bind-Steady :
      {A B : Type 0} (m : Deliberating W A) (g : A → Deliberating W B)
      → Steady m
      → ((a : A) → Steady (g a))
      → Steady (m >>= g)
  bind-Steady {A} {B} m g h k s =
      bind_lem (λ (out : Outcome LlmError B × Mind W). out.1.last_acted ≡ s.last_acted) m g s
        (λ x e. h s) (λ a e. k a (m s).1 ∙ h s)

  think-Steady : (instruction fallback : String) → Steady (think d instruction fallback)
  unfolding think ask
  think-Steady instruction fallback s = at d.router
    where
      at :
          (router : Option Routed)
          → (think_by d router instruction fallback s).1.last_acted ≡ s.last_acted
      at none = refl
      at (some routed) = refl

  takeaway-Steady : (episodes : List String) → Steady (takeaway d episodes)
  takeaway-Steady [] s = refl
  takeaway-Steady (e ∷ es) s = think-Steady _ _ s

  execute-Steady :
      (action : Action) (contents : List (WorkspaceItem W)) → Steady (execute d action contents)
  unfolding execute recall consolidate reflect
  execute-Steady action contents s = elim (Bool-cases (action.kind == "recall")) [
    | inl e ↦ rw e (
        bind-Steady (recall_episodes d action.query)
          (λ episodes. pure (recall_summary d action.query episodes)) (λ t. refl) (λ _ t. refl) s)
    | inr e ↦ rw e (elim (Bool-cases (action.kind == "consolidate")) [
      | inl k ↦ rw k (bind-Steady (recall_episodes d _) (takeaway d) (λ t. refl) takeaway-Steady s)
      | inr k ↦ rw k (elim (Bool-cases (action.kind == "formulate_question")) [
        | inl q ↦ rw q (think-Steady _ _ s)
        | inr q ↦ rw q (think-Steady _ _ s)
      ])
    ])
  ]

  resolve-Steady : (id : Option ℕ) (outcome : Fields) → Steady (resolve_goal d id outcome)
  resolve-Steady none outcome s = refl
  resolve-Steady (some id) outcome s = refl

  -- Nothing is planned and no model is asked.
  abbrev pub Resting : Mind W → Outcome LlmError (DeliberationResult W) × Mind W → Type 0
  Resting before (returned result, after) = (result.action ≡ none) × (after.router ≡ before.router)
  Resting before (raised e, after) = ⊥

  not_due :
      (reference t : ℕ) (s : Mind W)
      → s.last_acted ≡ some t
      → reference < t + d.min_interval
      → due d s reference ≡ false
  unfolding due
  not_due reference t s h early = rw h (ground (arith, early))

  goal-Resting :
      (reference t : ℕ) (contents : List (WorkspaceItem W)) (goal : Option (Goal W))
      (before s : Mind W)
      → s.last_acted ≡ some t
      → reference < t + d.min_interval
      → s.router ≡ before.router
      → Resting before (act_on_goal d reference contents goal s)
  goal-Resting reference t contents none before s h early k = (refl, k)
  goal-Resting reference t contents (some goal) before s h early k =
      rw (not_due reference t s h early) (refl, k)

  deliberate-Resting :
      (urges : List (Urge W)) (mood : Option (Mood W)) (contents : List (WorkspaceItem W))
      (reference t : ℕ) (s : Mind W)
      → s.last_acted ≡ some t
      → reference < t + d.min_interval
      → Resting s (deliberate d urges mood contents (some reference) s)
  unfolding deliberate arbitrate_goal
  deliberate-Resting urges mood contents reference t s h early =
      let m = record s { readings = suc (suc s.readings) } in
      let (goal, goals) =
        arbitrate d.arbiter mood urges reference (d.clock s.readings) (d.clock (suc s.readings))
          s.goals in
      goal-Resting reference t contents goal s (record m { goals = goals }) h early refl

  conclude-Steady :
      (action : Action) (goal : Goal W) (summary : String) → Steady (conclude d action goal summary)
  unfolding remember
  conclude-Steady action goal summary =
      let outcome = act_outcome d action summary (satisfaction_events d.intensities goal) in
      bind-Steady (remember d summary >> resolve_goal d goal.id outcome)
        (λ _. pure (outcome_of d action goal summary))
        (bind-Steady (remember d summary) (λ _. resolve_goal d goal.id outcome) (λ t. refl)
          (λ _. resolve-Steady goal.id outcome))
        (λ _ t. refl)

  act-last_acted :
      (action : Action) (goal : Goal W) (contents : List (WorkspaceItem W)) (s : Mind W)
      → (act d action goal contents s).1.last_acted ≡ some (d.clock s.readings)
  unfolding act
  act-last_acted action goal contents s =
      bind-Steady (execute d action contents) (conclude d action goal)
        (execute-Steady action contents) (conclude-Steady action goal)
        (record s { readings = suc s.readings; last_acted = some (d.clock s.readings) })

  settle-last_acted :
      (goal : Goal W) (summary : String) (success : Bool) (s : Mind W)
      → (settle_tool_action d goal summary success s).1.last_acted ≡ some (d.clock s.readings)
  unfolding settle_tool_action
  settle-last_acted goal summary success s =
      let events = eased d goal success in
      let outcome = tool_outcome d summary success events in
      bind-Steady (resolve_goal d goal.id outcome) (λ _. pure events)
        (resolve-Steady goal.id outcome) (λ _ t. refl)
        (record s { readings = suc s.readings; last_acted = some (d.clock s.readings) })

  -- After an action, internal or through a tool and however it ended, a deliberation at a time before
  -- the interval is over returns a result with no action, and asks no model.
  pub acted-Resting :
      (action : Action) (goal : Goal W) (contents : List (WorkspaceItem W)) (summary : String)
      (success : Bool) (s : Mind W) (urges : List (Urge W)) (mood : Option (Mood W))
      (later : List (WorkspaceItem W)) (reference : ℕ)
      → reference < d.clock s.readings + d.min_interval
      → let acted = (act d action goal contents s).1 in
        let settled = (settle_tool_action d goal summary success s).1 in
        Resting acted (deliberate d urges mood later (some reference) acted)
        × Resting settled (deliberate d urges mood later (some reference) settled)
  acted-Resting action goal contents summary success s urges mood later reference early = (
    deliberate-Resting urges mood later reference (d.clock s.readings)
        (act d action goal contents s).1 (act-last_acted action goal contents s) early,
    deliberate-Resting urges mood later reference (d.clock s.readings)
        (settle_tool_action d goal summary success s).1 (settle-last_acted goal summary success s)
        early,
  )
