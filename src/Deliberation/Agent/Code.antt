-- ===== src/Deliberation/Agent/Code.antt =====
-- What a deliberation plans: for the goal it returns, when it is due, and never code without code.
use johnny.Prelude.{
  arith, eq_iff, ℕ, suc, ◌+◌, ◌≤◌, ◌≡◌, ◌≢◌, refl, ap, ◌⊎◌, String, Bool, true, false, ◌&&◌, Option,
  none, some, List, Bool-cases, inl, inr, ◌==◌, lookup,
}
use johnny.Prelude.Exec.{Outcome, returned, raised, ◌>>=◌, pure}
use johnny.Prelude.Texts.{take_text}
use johnny.Json.{Json, str, Fields, end, field}
use johnny.Workspace.{WorkspaceItem}
use johnny.Float.{Float}
use johnny.Drives.Engine.{Urge}
use johnny.Goals.Store.{Goal}
use johnny.Goals.Arbiter.{Mood, arbitrate}
use johnny.Llm.{Completion, LlmError, unavailable, unavailable_by}
use johnny.Llm.Routing.{ModelStep, chain_for}
use johnny.Llm.Router.{History, State, validate_routing, complete}
use johnny.Llm.Router.Counts.{NoCrash}
use johnny.Llm.Router.Errors.{HasBreakers, IsTired, complete-IsTired}
use johnny.Cycle.Scene.{Action, DeliberationResult}
use johnny.Deliberation.Plan.{
  field_of, set_field, internal_action, plan, plan_by, query_from, strip_code_fences,
}
use johnny.Deliberation.Agent.{
  Mind, Routed, Deliberation, request, ask, code_of, snippet_or_none, code_instruction,
  formulate_by, formulate_code, needs_code, with_code, is_code, finalise_action, act_on_goal, due,
  elapsed, deliberate, arbitrate_goal,
}

-- A router, if there is one, whose requests for this role end in a completion or with no provider left.
abbrev pub Usable : Option Routed → State → Type 0
Usable none s = Unit
Usable (some r) s =
    NoCrash r.outside
    × ((h : History) (x : LlmError) → r.outside.is_exhausted h ≢ raised x)
    × (validate_routing r.config.providers r.config.roles ≡ none)
    × ((chain : List ModelStep) × (chain_for r.config.roles "deliberation" ≡ returned chain))
    × HasBreakers r.config.providers s.breakers

field_of-set_field : (k : String) (v : Json) (fs : Fields) → field_of k (set_field k v fs) ≡ some v
unfolding field_of set_field
field_of-set_field k v end = ground (arith, eq_iff k k)
field_of-set_field k v (field j w fs) = ground (arith, eq_iff j k, field_of-set_field k v fs)

module _ {W : Type 0} ⦃f : Float W⦄ (d : Deliberation W) where
  pub ask-IsTired :
      (r : Routed) (max_tokens : ℕ) (instruction : String) (m : Mind W)
      → Usable (some r) m.router
      → IsTired (ask d r max_tokens instruction m).0
  unfolding ask
  ask-IsTired r max_tokens instruction m u =
      (complete-IsTired r.outside r.config (request d max_tokens instruction) u.3.0 m.router u.0 u.1
        u.2 u.3.1 u.4).0

  -- The code is what a completion says, less the fences and up to the limit; the request asks for it.
  abbrev pub Answers : Option Routed → Goal W → List (WorkspaceItem W) → State → String → Type 0
  Answers none goal contents s code = ⊥
  Answers (some r) goal contents s code =
      (done : Completion) × ((complete r.outside r.config
          (request d d.code_max_tokens (code_instruction d goal (query_from goal contents))) s).0
        ≡ returned done)
      × (code ≡ take_text d.code_max_chars (strip_code_fences done.content))

  -- A text that was formulated is not empty and has this property.
  abbrev Formulated : (String → Type 0) → Outcome LlmError (Option String) × Mind W → Type 0
  Formulated P (returned none, after) = Unit
  Formulated P (returned (some code), after) = ((code == "") ≡ false) × P code
  Formulated P (raised e, after) = ⊥

  code_of-Formulated :
      (P : String → Type 0) (out : Outcome LlmError Completion) (after : Mind W)
      → IsTired out
      → ((done : Completion)
          → out ≡ returned done
          → P (take_text d.code_max_chars (strip_code_fences done.content)))
      → Formulated P (code_of d out, after)
  code_of-Formulated P (returned done) after t h =
      at (take_text d.code_max_chars (strip_code_fences done.content)) (h done refl)
    where
      at :
          (snippet : String)
          → P snippet
          → Formulated P (returned (snippet_or_none d snippet), after)
      at snippet k = elim (Bool-cases (snippet == "")) [ inl e ↦ rw e tt | inr e ↦ rw e (e, k) ]
  code_of-Formulated P (raised (unavailable role)) after t h = tt
  code_of-Formulated P (raised (unavailable_by role cause)) after t h = tt
  code_of-Formulated P (raised x) after t h = t

  formulate-Formulated :
      (router : Option Routed) (goal : Goal W) (contents : List (WorkspaceItem W)) (m : Mind W)
      → Usable router m.router
      → Formulated (Answers router goal contents m.router) (formulate_by d router goal contents m)
  unfolding ask
  formulate-Formulated none goal contents m u = tt
  formulate-Formulated (some r) goal contents m u =
      let instruction = code_instruction d goal (query_from goal contents) in
      let (out, after) = ask d r d.code_max_tokens instruction m in
      code_of-Formulated (Answers (some r) goal contents m.router) out after
        (ask-IsTired r d.code_max_tokens instruction m u) (λ done e. (done, e, refl))

  -- An action for a goal: it names the goal, and if it runs code it has code to run.
  abbrev pub Serves : Goal W → Action → Type 0
  Serves goal action =
      (action.goal_id ≡ goal.id)
      × (action.goal_source ≡ goal.source)
      × (action.description ≡ goal.description)
      × (needs_code d action ≡ false)

  internal-Serves :
      (goal : Goal W) (contents : List (WorkspaceItem W))
      → Serves goal (internal_action goal contents)
  unfolding internal_action
  internal-Serves goal contents = (refl, refl, refl, refl)

  -- The same less the code, which may have to be written yet.
  abbrev Named : Goal W → Action → Type 0
  Named goal action =
      (action.goal_id ≡ goal.id)
      × (action.goal_source ≡ goal.source)
      × (action.description ≡ goal.description)

  plan-Named :
      (goal : Goal W) (contents : List (WorkspaceItem W))
      → Named goal (plan d.tool_actions goal contents)
  unfolding plan
  plan-Named goal contents = at (lookup goal.source d.tool_actions)
    where
      at : (proposal : Option (String × Fields)) → Named goal (plan_by goal contents proposal)
      at none = (refl, refl, refl)
      at (some (tool, args)) = (refl, refl, refl)

  coded-Serves :
      (action : Action) (goal : Goal W) (contents : List (WorkspaceItem W)) (code : String)
      → Named goal action
      → (code == "") ≡ false
      → Serves goal (with_code d action goal contents (some code))
  coded-Serves action goal contents code n e = (
    n.0,
    n.1,
    n.2,
    rw (field_of-set_field "code" (str code) action.tool_args)
        (rw e (ended (is_code d action.tool))),
  )
    where
      ended : (b : Bool) → (b && false) ≡ false
      ended true = refl
      ended false = refl

  -- Where the action is from: it is the planned one, the internal one in its place, or has the code
  -- that the model wrote.
  abbrev pub Sourced : Goal W → List (WorkspaceItem W) → State → Action → Type 0
  Sourced goal contents s action =
      (action ≡ plan d.tool_actions goal contents)
      ⊎ (action ≡ internal_action goal contents)
      ⊎ ((code : String) × Answers d.router goal contents s code
          × (action.tool ≡ (plan d.tool_actions goal contents).tool)
          × (field_of "code" action.tool_args ≡ some (str code)))

  -- What is returned serves the goal.
  abbrev Serving :
      Goal W → List (WorkspaceItem W) → State → Outcome LlmError Action × Mind W → Type 0
  Serving goal contents s (returned action, after) =
      Serves goal action × Sourced goal contents s action
  Serving goal contents s (raised e, after) = ⊥

  finalise-Serving :
      (action : Action) (goal : Goal W) (contents : List (WorkspaceItem W)) (m : Mind W)
      → action ≡ plan d.tool_actions goal contents
      → Named goal action
      → Usable d.router m.router
      → Serving goal contents m.router (finalise_action d action goal contents m)
  unfolding finalise_action formulate_code
  finalise-Serving action goal contents m p n u = elim (Bool-cases (needs_code d action)) [
    | inr e ↦ rw e ((n.0, n.1, n.2, e), inl p)
    | inl e ↦ rw e (
        at (formulate_by d d.router goal contents m)
          (formulate-Formulated d.router goal contents m u))
  ]
    where
      at :
          (out : Outcome LlmError (Option String) × Mind W)
          → Formulated (Answers d.router goal contents m.router) out
          → Serving goal contents m.router
              (((λ (_ : Mind W). out) >>= λ code. pure (with_code d action goal contents code)) m)
      at (returned none, after) h = (internal-Serves goal contents, inr (inl refl))
      at (returned (some code), after) h = (
        coded-Serves action goal contents code n h.0,
        inr (
            inr (
              code,
              h.1,
              ap (λ a. a.tool) p,
              field_of-set_field "code" (str code) action.tool_args,
            )),
      )
      at (raised e, after) h = h

  -- There was no action yet, or the interval since it is over.
  abbrev pub IsOver : Option ℕ → ℕ → Type 0
  IsOver none reference = Unit
  IsOver (some t) reference = t + d.min_interval ≤ reference

  elapsed-IsOver :
      (last : Option ℕ) (reference : ℕ) → elapsed d last reference ≡ true → IsOver last reference
  elapsed-IsOver none reference e = tt
  elapsed-IsOver (some t) reference e = ground (arith, e)

  elapsed-not_IsOver :
      (last : Option ℕ) (reference : ℕ) → elapsed d last reference ≡ false → ¬ IsOver last reference
  elapsed-not_IsOver none reference e = λ h. cc e
  elapsed-not_IsOver (some t) reference e = λ h. ground (arith, e, h)

  -- With a goal there is an action exactly when the interval is over, and it serves the goal.
  abbrev pub Acts :
      List (WorkspaceItem W) → State → Option (Goal W) → Option ℕ → ℕ → Option Action → Type 0
  Acts contents s none last reference none = Unit
  Acts contents s (some goal) last reference none = ¬ IsOver last reference
  Acts contents s none last reference (some action) = ⊥
  Acts contents s (some goal) last reference (some action) =
      IsOver last reference × Serves goal action × Sourced goal contents s action

  abbrev pub Planned :
      List (WorkspaceItem W)
      → State
      → Option (Goal W)
      → Option ℕ
      → ℕ
      → Outcome LlmError (DeliberationResult W) × Mind W
      → Type 0
  Planned contents s goal last reference (returned result, after) =
      (result.goal ≡ goal) × Acts contents s goal last reference result.action
  Planned contents s goal last reference (raised e, after) = ⊥

  goal-Planned :
      (reference : ℕ) (contents : List (WorkspaceItem W)) (goal : Option (Goal W)) (m : Mind W)
      → Usable d.router m.router
      → Planned contents m.router goal m.last_acted reference
          (act_on_goal d reference contents goal m)
  unfolding due
  goal-Planned reference contents none m u = (refl, tt)
  goal-Planned reference contents (some goal) m u =
      elim (Bool-cases (elapsed d m.last_acted reference)) [
        | inr e ↦ rw e (refl, elapsed-not_IsOver m.last_acted reference e)
        | inl e ↦
            let action = plan d.tool_actions goal contents in
            rw e (
              at (finalise_action d action goal contents m)
                (finalise-Serving action goal contents m refl (plan-Named goal contents) u) e)
      ]
    where
      at :
          (out : Outcome LlmError Action × Mind W)
          → Serving goal contents m.router out
          → elapsed d m.last_acted reference ≡ true
          → Planned contents m.router (some goal) m.last_acted reference (
              ((λ (_ : Mind W). out) >>= λ action.
              pure (record { goal = some goal; action = some action }))
                m)
      at (returned action, after) h e = (refl, (elapsed-IsOver m.last_acted reference e, h.0, h.1))
      at (raised x, after) h e = h

  -- Where requests of the deliberation's role end in a completion or with no provider left, or there
  -- is no router, a deliberation returns the goal that the arbiter settles on. With a goal, it returns
  -- an action exactly when the interval since the last action is over. The action carries the goal's
  -- id, source and description, and is the planned one, the internal one for the goal, or the planned
  -- tool with the code of the model's answer to the request for it; one that runs code has some.
  pub deliberate-Planned :
      (urges : List (Urge W)) (mood : Option (Mood W)) (contents : List (WorkspaceItem W))
      (reference : ℕ) (s : Mind W)
      → Usable d.router s.router
      → let goal =
          (arbitrate d.arbiter mood urges reference
            (d.clock s.readings)
            (d.clock (suc s.readings))
            s.goals).0 in
        Planned contents s.router goal s.last_acted reference
          (deliberate d urges mood contents (some reference) s)
  unfolding deliberate arbitrate_goal
  deliberate-Planned urges mood contents reference s u =
      let m = record s { readings = suc (suc s.readings) } in
      let (goal, goals) =
        arbitrate d.arbiter mood urges reference (d.clock s.readings) (d.clock (suc s.readings))
          s.goals in
      goal-Planned reference contents goal (record m { goals = goals }) u
