-- ===== src/Llm/Router/Counts.antt =====
-- How many provider calls and log rows one request costs.
use johnny.Prelude.{
  String, ℕ, zero, suc, ◌+◌, ◌*◌, ◌≤◌, ◌≡◌, ◌≢◌, refl, Bool, not, true, false, Option, none, some,
  List, [], ◌∷◌, arith, count, length, lookup, insert, ◌++◌,
}
use johnny.Prelude.Exec.{Outcome, returned, raised, bind_lem}
use johnny.Llm.{Message, Completion, LlmError, schema_validation, provider_timeout, provider_error}
use johnny.Llm.Breaker.{CircuitBreaker}
use johnny.Llm.Routing.{ModelStep, chain_for}
use johnny.Llm.Router.{
  CallStatus, Request, Event, called, logged, read_timer, Reply, Call, answered, timed_out, failed,
  crashed, Outside, Config, State, log, settle, attempt, on_bad_answer, feedback, call_of,
  invoke_with_feedback, walk, complete, conclude, after_budget, after_allow, budget_blocks,
  try_step,
}

abbrev is_call : Event → Bool
is_call (called c) = true
is_call _ = false

abbrev is_skip : CallStatus → Bool
is_skip CallStatus.budget_skip = true
is_skip _ = false

-- A row of the call log that records a provider call, and one that records a skipped step.
abbrev is_call_row : Event → Bool
is_call_row (logged row) = not (is_skip row.status)
is_call_row _ = false

abbrev pub calls : State → ℕ
calls s = count is_call s.history

abbrev pub rows : State → ℕ
rows s = count is_call_row s.history

-- No provider call ends with an exception that is not a `ProviderError`.
abbrev pub NoCrash : Outside → Type 0
NoCrash o = (h : List Event) (call : Call) (e : String) → o.reply h call ≢ crashed e

-- From one state to a later one: at most so many calls more, and as many rows more as calls.
record Costs (most : ℕ) (s t : State) : Type 0 where
  bounded : calls t ≤ calls s + most
  recorded : rows t + calls s ≡ rows s + calls t

module _ (o : Outside) (c : Config) (no_crash : NoCrash o) where
  settle-Costs :
      (step : ModelStep) (r : Request) (start : ℕ) (reply : Reply) (s : State)
      → ((e : String) → reply ≢ crashed e)
      → (calls (settle o c step r start reply s).1 ≡ calls s)
        × (rows (settle o c step r start reply s).1 ≡ rows s + 1)
  unfolding settle log
  settle-Costs step r start (answered done) s h = ground arith
  settle-Costs step r start (timed_out e) s h = ground arith
  settle-Costs step r start (failed e) s h = ground arith
  settle-Costs step r start (crashed e) s h = absurd (h e refl)

  attempt-Costs :
      (step : ModelStep) (r : Request) (messages : List Message) (s : State)
      → Costs 1 s (attempt o c step r messages s).1
  unfolding attempt
  attempt-Costs step r messages s =
      let call = call_of o c step r messages in
      let h = read_timer ∷ s.history in
      ground (
        arith,
        settle-Costs step r (o.timer_ms s.history) (o.reply h call)
            (record s { history = called call ∷ h }) (no_crash h call),
      )

  on_bad_answer-Costs :
      (most : ℕ) (retry : String → String → State → Outcome LlmError Completion × State)
      (result : Outcome LlmError Completion) (s t : State)
      → Costs 1 s t
      → ((err bad : String) → Costs most t (retry err bad t).1)
      → Costs (most + 1) s (on_bad_answer o c retry result t).1
  unfolding on_bad_answer
  on_bad_answer-Costs most retry (returned done) s t k h = ground arith
  on_bad_answer-Costs most retry (raised (schema_validation err bad)) s t k h =
      ground (arith, h err bad)
  on_bad_answer-Costs most retry (raised x) s t k h = ground arith

  invoke-Costs :
      (step : ModelStep) (r : Request) (messages : List Message) (left : ℕ) (s : State)
      → Costs (left + 1) s (invoke_with_feedback o c step r messages left s).1
  unfolding invoke_with_feedback
  invoke-Costs step r messages zero s = ground (arith, attempt-Costs step r messages s)
  invoke-Costs step r messages (suc left) s =
      let (result, t) = attempt o c step r messages s in
      ground (
        arith,
        on_bad_answer-Costs (left + 1)
            (λ err bad u. invoke_with_feedback o c step r (messages ++ feedback err bad) left u)
            result s t (attempt-Costs step r messages s)
            (λ err bad. invoke-Costs step r (messages ++ feedback err bad) left t),
      )

  budget_blocks-Costs : (step : ModelStep) (t : State) → Costs 0 t (budget_blocks o c step t).1
  unfolding budget_blocks
  budget_blocks-Costs step t = ground arith

  module _ (most : ℕ) (next : Option LlmError → State → Outcome LlmError Completion × State)
      (rest : (e : Option LlmError) (u : State) → Costs most u (next e u).1) where
    conclude-Costs :
        (step : ModelStep) (b : CircuitBreaker) (result : Outcome LlmError Completion) (t : State)
        → Costs most t (conclude o c step b next result t).1
    unfolding conclude
    conclude-Costs step b (returned done) t = ground arith
    conclude-Costs step b (raised (schema_validation e bad)) t = grind (arith, rest)
    conclude-Costs step b (raised (provider_timeout e)) t = grind (arith, rest)
    conclude-Costs step b (raised (provider_error e)) t = grind (arith, rest)
    conclude-Costs step b (raised x) t = ground arith

    after_budget-Costs :
        (step : ModelStep) (r : Request) (b : CircuitBreaker) (blocked : Bool) (t : State)
        → Costs (c.schema_retries + 1 + most) t (after_budget o c step r b next blocked t).1
    unfolding after_budget log
    after_budget-Costs step r b true t = grind (arith, rest)
    after_budget-Costs step r b false t =
        let (result, u) = invoke_with_feedback o c step r r.messages c.schema_retries t in
        ground
          (arith, invoke-Costs step r r.messages c.schema_retries t, conclude-Costs step b result u)

    after_allow-Costs :
        (step : ModelStep) (r : Request) (skip : State → Outcome LlmError Completion × State)
        (allowed : Bool × CircuitBreaker) (t : State)
        → ((u : State) → Costs most u (skip u).1)
        → Costs (c.schema_retries + 1 + most) t (after_allow o c step r skip next allowed t).1
    unfolding after_allow
    after_allow-Costs step r skip (false, b) t h = grind (arith, h)
    after_allow-Costs step r skip (true, b) t h =
        let u = record t { breakers = insert step.provider b t.breakers } in
        let v = (budget_blocks o c step u).1 in
        let asked = budget_blocks-Costs step u in
        bind_lem (λ z. Costs (c.schema_retries + 1 + most) t z.1) (budget_blocks o c step)
          (after_budget o c step r b next) u (λ x _. ground arith)
          (λ blocked _. ground (arith, after_budget-Costs step r b blocked v))

    try_step-Costs :
        (step : ModelStep) (r : Request) (skip : State → Outcome LlmError Completion × State)
        (b : Option CircuitBreaker) (t : State)
        → ((u : State) → Costs most u (skip u).1)
        → Costs (c.schema_retries + 1 + most) t (try_step o c step r skip next b t).1
    unfolding try_step
    try_step-Costs step r skip none t h = ground arith
    try_step-Costs step r skip (some b) t h = grind (arith, after_allow-Costs step r skip)

  walk-Costs :
      (chain : List ModelStep) (r : Request) (last : Option LlmError) (s : State)
      → Costs (length chain * (c.schema_retries + 1)) s (walk o c chain r last s).1
  unfolding walk
  walk-Costs [] r last s = ground arith
  walk-Costs (step ∷ steps) r last s =
      let k = length steps * (c.schema_retries + 1) in
      ground (
        arith,
        try_step-Costs k (walk o c steps r) (walk-Costs steps r) step r (walk o c steps r last)
            (lookup step.provider s.breakers) s (walk-Costs steps r last),
      )

-- If no provider ends a call by an exception that is not a `ProviderError`, a request makes at most
-- `schema_retries + 1` provider calls for each step of its chain, and writes exactly one row of the
-- call log for each call that it makes, rows of skipped steps not counted.
pub complete-Costs :
    (o : Outside) (c : Config) (r : Request) (chain : List ModelStep) (s : State)
    → NoCrash o
    → chain_for c.roles r.role ≡ returned chain
    → let t = (complete o c r s).1 in
      (calls t ≤ calls s + length chain * (c.schema_retries + 1))
      × (rows t + calls s ≡ rows s + calls t)
unfolding complete
complete-Costs o c r chain s no_crash route =
    rw route (let k = walk-Costs o c no_crash chain r none s in (k.bounded, k.recorded))
