-- ===== src/Llm/Router/Budget.antt =====
-- The daily budget: once it is spent, no step with a price is called, and the free steps go on.
use johnny.Prelude.{
  ℕ, zero, suc, String, ◌≡◌, refl, Bool, true, false, not, Option, none, some, List, [], ◌∷◌, ◌++◌,
  arith, count, lookup, insert, leb,
}
use johnny.Prelude.Exec.{Outcome, returned, raised, bind_lem}
use johnny.Llm.{Message, Completion, LlmError, schema_validation, provider_timeout, provider_error}
use johnny.Llm.Breaker.{CircuitBreaker, allow}
use johnny.Llm.Pricing.{estimate_cost}
use johnny.Llm.Routing.{ModelStep, RoutingError, chain_for}
use johnny.Llm.Router.{
  Request, Event, called, Reply, answered, timed_out, failed, crashed, History, Outside, Config,
  State, Llm, log, judge, settle, attempt, on_bad_answer, feedback, invoke_with_feedback, conclude,
  after_budget, budget_blocks, after_allow, try_step, walk, routed, complete,
}

abbrev pub has_price : String → String → Bool
has_price provider model = not (leb (estimate_cost provider model 1 1) 0)

abbrev is_paid : Event → Bool
is_paid (called call) = has_price call.provider call.model
is_paid _ = false

-- The calls so far to a provider and model that have a price.
abbrev pub paid_calls : State → ℕ
paid_calls s = count is_paid s.history

module _ (o : Outside) (c : Config) (r : Request) (n : ℕ) where
  abbrev Same : Outcome LlmError Completion × State → Type 0
  Same z = paid_calls z.1 ≡ n

  module _ (step : ModelStep) (free : has_price step.provider step.model ≡ false) where
    settle-Same :
        (start : ℕ) (reply : Reply) (s : State)
        → paid_calls s ≡ n
        → Same (settle o c step r start reply s)
    unfolding settle judge log
    settle-Same start (answered done) s k = ground arith
    settle-Same start (timed_out e) s k = omega arith
    settle-Same start (failed e) s k = omega arith
    settle-Same start (crashed e) s k = k

    attempt-Same :
        (messages : List Message) (s : State)
        → paid_calls s ≡ n
        → Same (attempt o c step r messages s)
    unfolding attempt
    attempt-Same messages s k = settle-Same _ _ _ (ground arith)

    on_bad_answer-Same :
        (retry : String → String → Llm Completion) (result : Outcome LlmError Completion)
        (s : State)
        → paid_calls s ≡ n
        → ((err bad : String) → Same (retry err bad s))
        → Same (on_bad_answer o c retry result s)
    unfolding on_bad_answer
    on_bad_answer-Same retry (returned done) s k h = k
    on_bad_answer-Same retry (raised (schema_validation err bad)) s k h = h err bad
    on_bad_answer-Same retry (raised x) s k h = k

    invoke-Same :
        (messages : List Message) (left : ℕ) (s : State)
        → paid_calls s ≡ n
        → Same (invoke_with_feedback o c step r messages left s)
    unfolding invoke_with_feedback
    invoke-Same messages zero s k = attempt-Same messages s k
    invoke-Same messages (suc left) s k =
        let (result, t) = attempt o c step r messages s in
        on_bad_answer-Same _ result t (attempt-Same messages s k)
          (λ err bad. invoke-Same (messages ++ feedback err bad) left t (attempt-Same messages s k))

  module _ (gated : c.has_budget_gate ≡ true)
      (spent : (h : History) → o.is_exhausted h ≡ returned true) (step : ModelStep)
      (next : Option LlmError → Llm Completion)
      (rest : (e : Option LlmError) (s : State) → paid_calls s ≡ n → Same (next e s)) where
    conclude-Same :
        (b : CircuitBreaker) (result : Outcome LlmError Completion) (s : State)
        → paid_calls s ≡ n
        → Same (conclude o c step b next result s)
    unfolding conclude
    conclude-Same b (returned done) s k = k
    conclude-Same b (raised (schema_validation e bad)) s k = rest _ _ k
    conclude-Same b (raised (provider_timeout e)) s k = rest _ _ (omega arith)
    conclude-Same b (raised (provider_error e)) s k = rest _ _ (omega arith)
    conclude-Same b (raised x) s k = k

    after_budget-Same :
        (b : CircuitBreaker) (blocked : Bool) (s : State)
        → (blocked ≡ false → has_price step.provider step.model ≡ false)
        → paid_calls s ≡ n
        → Same (after_budget o c step r b next blocked s)
    unfolding after_budget log
    after_budget-Same b true s free k = rest _ _ (omega arith)
    after_budget-Same b false s free k =
        let (result, t) = invoke_with_feedback o c step r r.messages c.schema_retries s in
        conclude-Same b result t (invoke-Same step (free refl) r.messages c.schema_retries s k)

    -- The gate answers that the step is blocked, or asks nothing and lets a free step through.
    budget_blocks-price :
        (s : State) (blocked : Bool)
        → (budget_blocks o c step s).0 ≡ returned blocked
        → blocked ≡ false
        → has_price step.provider step.model ≡ false
    unfolding budget_blocks
    budget_blocks-price s blocked e f = ground (arith, spent s.history)

    paid_calls-budget_blocks :
        (s : State) → paid_calls s ≡ n → paid_calls (budget_blocks o c step s).1 ≡ n
    unfolding budget_blocks
    paid_calls-budget_blocks s k = ground arith

    after_allow-Same :
        (skip : Llm Completion) (allowed : Bool × CircuitBreaker) (s : State)
        → ((t : State) → paid_calls t ≡ n → Same (skip t))
        → paid_calls s ≡ n
        → Same (after_allow o c step r skip next allowed s)
    unfolding after_allow
    after_allow-Same skip (false, b) s h k = h _ k
    after_allow-Same skip (true, b) s h k =
        let u = record s { breakers = insert step.provider b s.breakers } in
        let asked = paid_calls-budget_blocks u k in
        bind_lem Same (budget_blocks o c step) (after_budget o c step r b next) u (λ x _. asked)
          (λ blocked e. after_budget-Same b blocked _ (budget_blocks-price u blocked e) asked)

    try_step-Same :
        (skip : Llm Completion) (b : Option CircuitBreaker) (s : State)
        → ((t : State) → paid_calls t ≡ n → Same (skip t))
        → paid_calls s ≡ n
        → Same (try_step o c step r skip next b s)
    unfolding try_step
    try_step-Same skip none s h k = k
    try_step-Same skip (some b) s h k =
        after_allow-Same skip (allow b (o.time s.history)) _ h (omega arith)

  walk-Same :
      c.has_budget_gate ≡ true
      → ((h : History) → o.is_exhausted h ≡ returned true)
      → (chain : List ModelStep) (last : Option LlmError) (s : State) → paid_calls s ≡ n
      → Same (walk o c chain r last s)
  unfolding walk
  walk-Same gated spent [] last s k = k
  walk-Same gated spent (step ∷ steps) last s k =
      try_step-Same gated spent step (walk o c steps r) (walk-Same gated spent steps)
        (walk o c steps r last) (lookup step.provider s.breakers) s
        (walk-Same gated spent steps last) k

-- While the budget gate reports the daily budget spent, a request makes no provider call that has a
-- price, whatever its role, the circuits, the retries and the answers of the providers.
pub paid_calls-complete :
    (o : Outside) (c : Config) (r : Request) (s : State)
    → c.has_budget_gate ≡ true
    → ((h : History) → o.is_exhausted h ≡ returned true)
    → paid_calls (complete o c r s).1 ≡ paid_calls s
unfolding complete
paid_calls-complete o c r s gated spent = by_route (chain_for c.roles r.role)
  where
    by_route :
        (route : Outcome RoutingError (List ModelStep))
        → paid_calls (routed o c r route s).1 ≡ paid_calls s
    by_route (returned chain) = walk-Same o c r (paid_calls s) gated spent chain none s refl
    by_route (raised x) = refl
