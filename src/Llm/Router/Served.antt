-- ===== src/Llm/Router/Served.antt =====
-- What a completion that the router returns has been through.
use mathlib.Core.Path.{subst}
use johnny.Prelude.{
  ℕ, zero, suc, String, ◌≡◌, ◌⊎◌, inl, inr, refl, Bool, true, false, Option, none, some, List, [],
  ◌∷◌, ◌++◌, arith, lookup,
}
use johnny.Prelude.Exec.{Outcome, returned, raised, bind_lem}
use johnny.Llm.{
  Message, Completion, LlmError, schema_validation, provider_timeout, provider_error, Schema,
}
use johnny.Llm.Breaker.{CircuitBreaker, allow}
use johnny.Llm.Pricing.{estimate_cost}
use johnny.Llm.Routing.{ModelStep, chain_for}
use johnny.Llm.Router.{
  CallStatus, Request, CallLogRecord, logged, Reply, answered, timed_out, failed, crashed, History,
  Outside, Config, State, Llm, log, judge, complaint, settle, attempt, on_bad_answer, feedback,
  invoke_with_feedback, conclude, after_budget, budget_blocks, after_allow, try_step, walk,
  complete,
}

abbrev pub Accepts : Option Schema → String → Type 0
Accepts none content = Unit
Accepts (some schema) content = schema.validation_error content ≡ none

-- The row names the provider and the model of a step.
abbrev pub OneOf : Outside → CallLogRecord → List ModelStep → Type 0
OneOf o row [] = ⊥
OneOf o row (step ∷ steps) =
    ((row.provider ≡ o.name step.provider) × (row.model ≡ step.model)) ⊎ OneOf o row steps

abbrev pub Costs : CallLogRecord → Completion → Type 0
Costs row done =
    (row.prompt_tokens ≡ done.prompt_tokens)
    × (row.completion_tokens ≡ done.completion_tokens)
    × (row.cost_usd
        ≡ estimate_cost row.provider row.model done.prompt_tokens done.completion_tokens)

abbrev pub IsOkRow : Outside → Request → List ModelStep → Completion → CallLogRecord → Type 0
IsOkRow o r chain done row =
    (row.status ≡ CallStatus.ok) × (row.role ≡ r.role) × OneOf o row chain × Costs row done

-- The latest event is the log row of an accepted answer.
abbrev pub EndsOk : Outside → Request → List ModelStep → Completion → History → Type 0
EndsOk o r chain done (logged row ∷ h) = IsOkRow o r chain done row
EndsOk o r chain done _ = ⊥

abbrev pub Served :
    Outside → Request → List ModelStep → Outcome LlmError Completion × State → Type 0
Served o r chain (returned done, s) =
    Accepts r.schema done.content × EndsOk o r chain done s.history
Served o r chain (raised x, s) = Unit

Served-more :
    (o : Outside) (r : Request) (step : ModelStep) (steps : List ModelStep)
    (result : Outcome LlmError Completion) (breakers : _) (h : History)
    → Served o r steps (result, record { breakers = breakers; history = h })
    → Served o r (step ∷ steps) (result, record { breakers = breakers; history = h })
Served-more o r step steps (returned done) b (logged row ∷ h) k =
    (k.0, (k.1.0, k.1.1, inr k.1.2, k.1.3))
Served-more o r step steps (returned done) b (_ ∷ h) k = absurd k.1
Served-more o r step steps (returned done) b [] k = absurd k.1
Served-more o r step steps (raised x) b h k = tt

complaint-Accepts :
    (schema : Option Schema) (content : String)
    → complaint schema content ≡ none
    → Accepts schema content
complaint-Accepts none content h = tt
complaint-Accepts (some schema) content h = ground arith

module _ (o : Outside) (c : Config) (r : Request) (step : ModelStep) (steps : List ModelStep) where
  abbrev Good : Outcome LlmError Completion × State → Type 0
  Good = Served o r (step ∷ steps)

  judge-Served :
      (done : Completion) (start : ℕ) (e : Option String) (s : State)
      → (e ≡ none → Accepts r.schema done.content)
      → Good (judge o c step r done start e s)
  unfolding judge log
  judge-Served done start none s h = (h refl, (refl, refl, inl (refl, refl), (refl, refl, refl)))
  judge-Served done start (some e) s h = tt

  settle-Served : (start : ℕ) (reply : Reply) (s : State) → Good (settle o c step r start reply s)
  unfolding settle log
  settle-Served start (answered done) s =
      judge-Served done start (complaint r.schema done.content) s
        (complaint-Accepts r.schema done.content)
  settle-Served start (timed_out e) s = tt
  settle-Served start (failed e) s = tt
  settle-Served start (crashed e) s = tt

  attempt-Served : (messages : List Message) (s : State) → Good (attempt o c step r messages s)
  unfolding attempt
  attempt-Served messages s = settle-Served _ _ _

  on_bad_answer-Served :
      (retry : String → String → Llm Completion) (result : Outcome LlmError Completion) (s : State)
      → Good (result, s)
      → ((err bad : String) → Good (retry err bad s))
      → Good (on_bad_answer o c retry result s)
  unfolding on_bad_answer
  on_bad_answer-Served retry (returned done) s k h = k
  on_bad_answer-Served retry (raised (schema_validation err bad)) s k h = h err bad
  on_bad_answer-Served retry (raised x) s k h = tt

  invoke-Served :
      (messages : List Message) (left : ℕ) (s : State)
      → Good (invoke_with_feedback o c step r messages left s)
  unfolding invoke_with_feedback
  invoke-Served messages zero s = attempt-Served messages s
  invoke-Served messages (suc left) s =
      let (result, t) = attempt o c step r messages s in
      on_bad_answer-Served _ result t (attempt-Served messages s)
        (λ err bad. invoke-Served (messages ++ feedback err bad) left t)

  module _ (next : Option LlmError → Llm Completion)
      (rest : (e : Option LlmError) (s : State) → Good (next e s)) where
    conclude-Served :
        (b : CircuitBreaker) (result : Outcome LlmError Completion) (s : State)
        → Good (result, s)
        → Good (conclude o c step b next result s)
    unfolding conclude
    conclude-Served b (returned done) s k = k
    conclude-Served b (raised (schema_validation e bad)) s k = rest _ _
    conclude-Served b (raised (provider_timeout e)) s k = rest _ _
    conclude-Served b (raised (provider_error e)) s k = rest _ _
    conclude-Served b (raised x) s k = tt

    after_budget-Served :
        (b : CircuitBreaker) (blocked : Bool) (s : State)
        → Good (after_budget o c step r b next blocked s)
    unfolding after_budget log
    after_budget-Served b true s = rest _ _
    after_budget-Served b false s =
        let (result, t) = invoke_with_feedback o c step r r.messages c.schema_retries s in
        conclude-Served b result t (invoke-Served r.messages c.schema_retries s)

    try_step-Served :
        (skip : Llm Completion) (b : Option CircuitBreaker) (s : State)
        → ((t : State) → Good (skip t))
        → Good (try_step o c step r skip next b s)
    unfolding try_step
    try_step-Served skip none s h = tt
    try_step-Served skip (some b) s h = after_allow-Served skip (allow b (o.time s.history)) _ h
      where
        after_allow-Served :
            (skip : Llm Completion) (allowed : Bool × CircuitBreaker) (s : State)
            → ((t : State) → Good (skip t))
            → Good (after_allow o c step r skip next allowed s)
        after_allow-Served skip (false, b) s h = h _
        after_allow-Served skip (true, b) s h =
            bind_lem Good (budget_blocks o c step) (after_budget o c step r b next) _ (λ x _. tt)
              (λ blocked _. after_budget-Served b blocked _)

walk-Served :
    (o : Outside) (c : Config) (r : Request) (chain : List ModelStep) (last : Option LlmError)
    (s : State)
    → Served o r chain (walk o c chain r last s)
unfolding walk
walk-Served o c r [] last s = tt
walk-Served o c r (step ∷ steps) last s =
    try_step-Served o c r step steps (walk o c steps r)
      (λ e t. more (walk o c steps r e t) (walk-Served o c r steps e t)) (walk o c steps r last)
      (lookup step.provider s.breakers) s
      (λ t. more (walk o c steps r last t) (walk-Served o c r steps last t))
  where
    more :
        (z : Outcome LlmError Completion × State) → Served o r steps z → Served o r (step ∷ steps) z
    more (result, s) k = Served-more o r step steps result s.breakers s.history k

pub complete-Served :
    (o : Outside) (c : Config) (r : Request) (chain : List ModelStep) (s : State)
    → chain_for c.roles r.role ≡ returned chain
    → Served o r chain (complete o c r s)
unfolding complete
complete-Served o c r chain s route = rw route (walk-Served o c r chain none s)

-- A completion that the router returns passes the validation of the requested schema, and the latest
-- event is its row in the call log: the status ok, the request's role, the provider's name and the
-- model of a step of the role's chain, the completion's tokens, and their cost there.
pub complete_served :
    (o : Outside) (c : Config) (r : Request) (chain : List ModelStep) (s t : State)
    (done : Completion)
    → chain_for c.roles r.role ≡ returned chain
    → complete o c r s ≡ (returned done, t)
    → Accepts r.schema done.content × EndsOk o r chain done t.history
complete_served o c r chain s t done route e =
    subst (Served o r chain) e (complete-Served o c r chain s route)
