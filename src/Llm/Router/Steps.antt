-- ===== src/Llm/Router/Steps.antt =====
-- How a step of the chain ends: the exceptions that a provider call can end in, and what a step keeps.
use mathlib.Core.Path.{subst}
use johnny.Prelude.{
  sym, ◌∙◌, ℕ, zero, suc, String, ◌≡◌, ◌≢◌, refl, Bool, true, false, Option, none, some, List, ◌++◌,
  arith, insert, Dict,
}
use johnny.Prelude.Exec.{Outcome, returned, raised, bind_lem}
use johnny.Llm.{Message, Completion, LlmError, schema_validation, provider_timeout, provider_error}
use johnny.Llm.Breaker.{CircuitBreaker, allow}
use johnny.Llm.Routing.{ModelStep}
use johnny.Llm.Router.{
  Request, Reply, answered, timed_out, failed, crashed, History, Outside, Config, State, Llm, log,
  judge, complaint, settle, attempt, on_bad_answer, feedback, invoke_with_feedback, conclude,
  after_budget, budget_blocks, after_allow, try_step,
}
use johnny.Llm.Router.Counts.{NoCrash}

-- What a provider call can end in: no other exception.
abbrev pub IsCaught : Outcome LlmError Completion → Type 0
IsCaught (returned done) = Unit
IsCaught (raised (schema_validation e bad)) = Unit
IsCaught (raised (provider_timeout e)) = Unit
IsCaught (raised (provider_error e)) = Unit
IsCaught (raised x) = ⊥

module _ (o : Outside) (c : Config) (r : Request) (no_crash : NoCrash o)
    (gate : (h : History) (x : LlmError) → o.is_exhausted h ≢ raised x) where
  abbrev pub Caught : State → Outcome LlmError Completion × State → Type 0
  Caught s z = IsCaught z.0 × (z.1.breakers ≡ s.breakers)

  settle-Caught :
      (step : ModelStep) (start : ℕ) (reply : Reply) (s : State)
      → ((e : String) → reply ≢ crashed e)
      → Caught s (settle o c step r start reply s)
  unfolding settle log
  settle-Caught step start (answered done) s h = judge-Caught (complaint r.schema done.content)
    where
      judge-Caught : (e : Option String) → Caught s (judge o c step r done start e s)
      judge-Caught none = (tt, refl)
      judge-Caught (some e) = (tt, refl)
  settle-Caught step start (timed_out e) s h = (tt, refl)
  settle-Caught step start (failed e) s h = (tt, refl)
  settle-Caught step start (crashed e) s h = absurd (h e refl)

  attempt-Caught :
      (step : ModelStep) (messages : List Message) (s : State)
      → Caught s (attempt o c step r messages s)
  unfolding attempt
  attempt-Caught step messages s = settle-Caught step _ _ _ (no_crash _ _)

  on_bad_answer-Caught :
      (retry : String → String → Llm Completion) (result : Outcome LlmError Completion)
      (s t : State)
      → Caught s (result, t)
      → ((err bad : String) → Caught t (retry err bad t))
      → Caught s (on_bad_answer o c retry result t)
  unfolding on_bad_answer
  on_bad_answer-Caught retry (raised (schema_validation err bad)) s t k h =
      ((h err bad).0, (h err bad).1 ∙ k.1)
  on_bad_answer-Caught retry (returned done) s t k h = k
  on_bad_answer-Caught retry (raised x) s t k h = k

  pub invoke-Caught :
      (step : ModelStep) (messages : List Message) (left : ℕ) (s : State)
      → Caught s (invoke_with_feedback o c step r messages left s)
  unfolding invoke_with_feedback
  invoke-Caught step messages zero s = attempt-Caught step messages s
  invoke-Caught step messages (suc left) s =
      let (result, t) = attempt o c step r messages s in
      on_bad_answer-Caught _ result s t (attempt-Caught step messages s)
        (λ err bad. invoke-Caught step (messages ++ feedback err bad) left t)

  -- `Ready` of the breakers is kept by each step, and `Ends` is reached by a completion or by the rest.
  module _ (Ready : Dict CircuitBreaker → Type 0)
      (Ends : Outcome LlmError Completion × State → Type 0) (step : ModelStep)
      (next : Option LlmError → Llm Completion)
      (keep : (b : CircuitBreaker) (d : Dict CircuitBreaker)
        → Ready d
        → Ready (insert step.provider b d))
      (finish : (done : Completion) (s : State) → Ready s.breakers → Ends (returned done, s))
      (rest : (e : Option LlmError) (s : State) → Ready s.breakers → Ends (next e s)) where
    conclude-Ends :
        (b : CircuitBreaker) (result : Outcome LlmError Completion) (s : State)
        → IsCaught result
        → Ready s.breakers
        → Ends (conclude o c step b next result s)
    unfolding conclude
    conclude-Ends b (returned done) s k h = finish done _ (keep _ s.breakers h)
    conclude-Ends b (raised (schema_validation e bad)) s k h = rest _ _ (keep _ s.breakers h)
    conclude-Ends b (raised (provider_timeout e)) s k h = rest _ _ (keep _ s.breakers h)
    conclude-Ends b (raised (provider_error e)) s k h = rest _ _ (keep _ s.breakers h)
    conclude-Ends b (raised x) s k h = absurd k

    after_budget-Ends :
        (b : CircuitBreaker) (blocked : Bool) (s : State)
        → Ready s.breakers
        → Ends (after_budget o c step r b next blocked s)
    unfolding after_budget log
    after_budget-Ends b true s h = rest _ _ h
    after_budget-Ends b false s h =
        let (result, t) = invoke_with_feedback o c step r r.messages c.schema_retries s in
        let caught = invoke-Caught step r.messages c.schema_retries s in
        conclude-Ends b result t caught.0 (subst Ready (sym caught.1) h)

    breakers-budget_blocks : (s : State) → (budget_blocks o c step s).1.breakers ≡ s.breakers
    unfolding budget_blocks
    breakers-budget_blocks s = ground arith

    budget_blocks-ne-raised : (s : State) (x : LlmError) → (budget_blocks o c step s).0 ≢ raised x
    unfolding budget_blocks
    budget_blocks-ne-raised s x = ground (arith, gate s.history x)

    after_allow-Ends :
        (skip : Llm Completion) (allowed : Bool × CircuitBreaker) (s : State)
        → ((t : State) → Ready t.breakers → Ends (skip t))
        → Ready s.breakers
        → Ends (after_allow o c step r skip next allowed s)
    unfolding after_allow
    after_allow-Ends skip (false, b) s go h = go _ (keep _ s.breakers h)
    after_allow-Ends skip (true, b) s go h =
        let u = record s { breakers = insert step.provider b s.breakers } in
        bind_lem Ends (budget_blocks o c step) (after_budget o c step r b next) u
          (λ x e. absurd (budget_blocks-ne-raised u x e))
          (λ blocked _.
            after_budget-Ends b blocked _
              (subst Ready (sym (breakers-budget_blocks u)) (keep _ s.breakers h)))

    pub try_step-Ends :
        (skip : Llm Completion) (b : Option CircuitBreaker) (s : State)
        → b ≢ none
        → ((t : State) → Ready t.breakers → Ends (skip t))
        → Ready s.breakers
        → Ends (try_step o c step r skip next b s)
    unfolding try_step
    try_step-Ends skip none s found go h = absurd (found refl)
    try_step-Ends skip (some b) s found go h =
        after_allow-Ends skip (allow b (o.time s.history)) _ go h
