-- ===== src/Llm/Router.antt =====
-- brain/llm/router.py, `LLMRouter`: the role's chain, the circuit breakers, the budget gate, the retry
-- with feedback, the fall back down the chain and the call log (brain/llm/call_logger.py, whose
-- `record` swallows every failure).
-- What the router does to the outside is a history of events, the latest first. Each answer from the
-- outside is a function of the history before it, so nothing is assumed of providers, clocks and
-- budget. The clock is read once at each place where the source may read it.
pub mod Budget
pub mod Counts
pub mod Errors
pub mod Served
pub mod Steps
pub mod Available
use Prim.Native.String.{◌++◌ as append_text}
use johnny.Prelude.{
  ℕ, zero, suc, ◌-◌, String, Bool, true, false, not, Option, none, some, List, [], ◌∷◌, ◌++◌, Dict,
  lookup, insert, leb, if◌then◌else◌, ◌==◌, ◌||◌,
}
use johnny.Prelude.Exec.{Outcome, returned, raised, Exec, pure, raise, ◌>>=◌, ◌>>◌}
use johnny.Llm.{
  Role, text, Message, Completion, LlmError, provider_timeout, provider_error, schema_validation,
  unavailable, unavailable_by, budget_exhausted, other, Schema,
}
use johnny.Llm.Breaker.{CircuitBreaker, new_breaker, allow, record_success, record_failure}
use johnny.Llm.Pricing.{estimate_cost}
use johnny.Llm.Routing.{ModelStep, Roles, RoutingError, chain_for}

-- The `status` texts of `llm_call_log`.
pub data CallStatus : Type 0 where
  ok timeout error schema_error budget_skip : CallStatus

pub record CallLogRecord : Type 0 where
  pub role : String
  pub provider : String
  pub model : String
  pub prompt_tokens : ℕ
  pub completion_tokens : ℕ
  pub latency_ms : ℕ
  pub status : CallStatus
  pub cost_usd : ℕ

-- The arguments of `LLMRouter.complete`; the temperature is in hundredths.
pub record Request : Type 0 where
  pub role : String
  pub messages : List Message
  pub schema : Option Schema
  pub temperature : ℕ
  pub max_tokens : Option ℕ

-- One call of `LLMProvider.complete`; `json` is the JSON response format.
pub record Call : Type 0 where
  pub provider : String
  pub model : String
  pub messages : List Message
  pub temperature : ℕ
  pub max_tokens : Option ℕ
  pub json : Bool

pub data Event : Type 0 where
  called : Call → Event
  logged : CallLogRecord → Event
  asked_budget : Event
  read_clock : Event
  read_timer : Event

abbrev pub History : Type 0
History = List Event

-- How a provider call ends: a completion, `ProviderTimeoutError`, another `ProviderError`, or any other
-- exception.
pub data Reply : Type 0 where
  answered : Completion → Reply
  timed_out : String → Reply
  failed : String → Reply
  crashed : String → Reply

pub record Outside : Type 0 where
  pub reply : History → Call → Reply
  pub time : History → ℕ
  pub timer_ms : History → ℕ
  -- The `name` of the provider under a key
  pub name : String → String
  -- `is_exhausted()`, which may raise
  pub is_exhausted : History → Outcome LlmError Bool

-- The attributes of a router that never change, and those that do.
pub record Config : Type 0 where
  pub providers : List String
  pub roles : Roles
  pub schema_retries : ℕ
  pub has_budget_gate : Bool

pub record State : Type 0 where
  pub breakers : Dict CircuitBreaker
  pub history : History

abbrev pub Llm : Type 0 → Type 0
Llm = Exec State LlmError

unfoldable pub new_breakers : List String → ℕ → ℕ → Dict CircuitBreaker
new_breakers [] threshold reset = []
new_breakers (p ∷ ps) threshold reset =
    insert p (new_breaker threshold reset) (new_breakers ps threshold reset)

abbrev pub contains : String → List String → Bool
contains a [] = false
contains a (x ∷ xs) = if x == a then true else contains a xs

-- `_validate_routing_providers`: the first role and provider that it refuses, if any.
unfoldable pub unknown_provider : List String → List ModelStep → Option String
unknown_provider providers [] = none
unknown_provider providers (step ∷ steps) =
    if contains step.provider providers
    then unknown_provider providers steps
    else some step.provider

unfoldable pub validate_routing : List String → Roles → Option (String × String)
validate_routing providers [] = none
validate_routing providers ((role, steps) ∷ rest) = elim (unknown_provider providers steps) [
  | none ↦ validate_routing providers rest
  | some p ↦ some (role, p)
]

abbrev pub happened : Event → Llm (Unit {0})
happened e s = (returned tt, record s { history = e ∷ s.history })

abbrev pub set_breaker : String → CircuitBreaker → Llm (Unit {0})
set_breaker p b s = (returned tt, record s { breakers = insert p b s.breakers })

-- The message that quotes a bad answer back, and the error of a bad answer.
abbrev pub invalid_text : Schema → String → String
invalid_text schema e =
    append_text "response did not match " (append_text schema.name (append_text ": " e))

abbrev pub feedback : String → String → List Message
feedback err bad =
    record { role = Role.assistant; content = text bad }
    ∷ record {
      role = Role.user;
      content = text (
          append_text "Your previous response was invalid: "
            (append_text err ". Respond with ONLY valid JSON matching the required schema."));
    }
    ∷ []

abbrev is_some {ℓ} : {A : Type ℓ} → Option A → Bool
is_some none = false
is_some (some a) = true

abbrev explained : Schema → Option String → Option String
explained schema none = none
explained schema (some e) = some (invalid_text schema e)

-- The error of `schema.model_validate_json(content)`, as the router words it.
abbrev pub complaint : Option Schema → String → Option String
complaint none content = none
complaint (some schema) content = explained schema (schema.validation_error content)

module _ (o : Outside) (c : Config) where
  abbrev pub clock : Llm ℕ
  clock s =
      let now = o.time s.history in (returned now, record s { history = read_clock ∷ s.history })

  abbrev pub timer : Llm ℕ
  timer s =
      let now = o.timer_ms s.history in
      (returned now, record s { history = read_timer ∷ s.history })

  abbrev prompt_tokens_of : Option Completion → ℕ
  prompt_tokens_of none = 0
  prompt_tokens_of (some done) = done.prompt_tokens

  abbrev completion_tokens_of : Option Completion → ℕ
  completion_tokens_of none = 0
  completion_tokens_of (some done) = done.completion_tokens

  abbrev latency : Option ℕ → Llm ℕ
  latency none s = (returned 0, s)
  latency (some start) s = (do now ← timer; pure (now - start)) s

  -- `_log`
  unfoldable pub log :
      String → String → String → Option Completion → CallStatus → Option ℕ → Llm (Unit {0})
  log role provider model done status start = do
    ms ← latency start
    happened (
        logged (record {
          role = role;
          provider = provider;
          model = model;
          prompt_tokens = prompt_tokens_of done;
          completion_tokens = completion_tokens_of done;
          latency_ms = ms;
          status = status;
          cost_usd =
              estimate_cost provider model (prompt_tokens_of done) (completion_tokens_of done);
        }))

  -- `_budget_blocks`: only a step with a price is held against the budget.
  abbrev ask_budget : Bool → Llm Bool
  ask_budget true s = (returned false, s)
  ask_budget false s = (o.is_exhausted s.history, record s { history = asked_budget ∷ s.history })

  unfoldable pub budget_blocks : ModelStep → Llm Bool
  budget_blocks step =
      ask_budget (not c.has_budget_gate || leb (estimate_cost step.provider step.model 1 1) 0)

  -- The end of `_attempt` after an answer, by the error of its validation, if there is one.
  unfoldable pub judge : ModelStep → Request → Completion → ℕ → Option String → Llm Completion
  judge step r done start none =
      log r.role (o.name step.provider) step.model (some done) CallStatus.ok (some start)
      >> pure done
  judge step r done start (some e) =
      log r.role (o.name step.provider) step.model (some done) CallStatus.schema_error (some start)
      >> raise (schema_validation e done.content)

  abbrev pub call_of : ModelStep → Request → List Message → Call
  call_of step r messages = record {
    provider = step.provider;
    model = step.model;
    messages = messages;
    temperature = r.temperature;
    max_tokens = r.max_tokens;
    json = is_some r.schema;
  }

  abbrev pub send : Call → Llm Reply
  send call s =
      let reply = o.reply s.history call in
      (returned reply, record s { history = called call ∷ s.history })

  -- `except ProviderTimeoutError`, `except ProviderError`, and what passes both by
  unfoldable pub settle : ModelStep → Request → ℕ → Reply → Llm Completion
  unfolding judge
  settle step r start (answered done) = judge step r done start (complaint r.schema done.content)
  settle step r start (timed_out e) =
      log r.role (o.name step.provider) step.model none CallStatus.timeout (some start)
      >> raise (provider_timeout e)
  settle step r start (failed e) =
      log r.role (o.name step.provider) step.model none CallStatus.error (some start)
      >> raise (provider_error e)
  settle step r start (crashed e) = raise (other e)

  -- `_attempt`: one provider call, timed, validated and logged
  unfoldable pub attempt : ModelStep → Request → List Message → Llm Completion
  attempt step r messages = do
    start ← timer
    reply ← send (call_of step r messages)
    settle step r start reply

  -- `except SchemaValidationError` in the loop of `_invoke_with_feedback`
  unfoldable pub on_bad_answer :
      (String → String → Llm Completion) → Outcome LlmError Completion → Llm Completion
  on_bad_answer retry (returned done) = pure done
  on_bad_answer retry (raised (schema_validation err bad)) = retry err bad
  on_bad_answer retry (raised x) = raise x

  -- `_invoke_with_feedback`, by the retries that are left: the loop index falls short of
  -- `schema_retries` by them
  unfoldable pub invoke_with_feedback : ModelStep → Request → List Message → ℕ → Llm Completion
  invoke_with_feedback step r messages zero s = attempt step r messages s
  invoke_with_feedback step r messages (suc left) s =
      let (result, s') = attempt step r messages s in
      on_bad_answer (λ err bad t. invoke_with_feedback step r (messages ++ feedback err bad) left t)
        result s'

  abbrev none_left : String → Option LlmError → LlmError
  none_left role none = unavailable role
  none_left role (some cause) = unavailable_by role cause

  -- How the loop of `complete` goes on after a call: a success or unusable output counts for the
  -- provider's health, a failure of the transport against it, and other exceptions leave the loop.
  unfoldable pub conclude :
      ModelStep
      → CircuitBreaker
      → (Option LlmError → Llm Completion)
      → Outcome LlmError Completion
      → Llm Completion
  conclude step b next (returned done) = set_breaker step.provider (record_success b) >> pure done
  conclude step b next (raised (schema_validation e bad)) =
      set_breaker step.provider (record_success b) >> next (some (schema_validation e bad))
  conclude step b next (raised (provider_timeout e)) = do
    now ← clock
    set_breaker step.provider (record_failure b now)
    next (some (provider_timeout e))
  conclude step b next (raised (provider_error e)) = do
    now ← clock
    set_breaker step.provider (record_failure b now)
    next (some (provider_error e))
  conclude step b next (raised x) = raise x

  -- What follows the budget's answer, whether it blocks the step: a skip, or the call.
  unfoldable pub after_budget :
      ModelStep
      → Request
      → CircuitBreaker
      → (Option LlmError → Llm Completion)
      → Bool
      → Llm Completion
  unfolding conclude
  after_budget step r b next true s =
      (log r.role step.provider step.model none CallStatus.budget_skip none
          >> next (some (unavailable_by r.role (budget_exhausted step.provider))))
        s
  after_budget step r b next false s =
      let (result, s') = invoke_with_feedback step r r.messages c.schema_retries s in
      conclude step b next result s'

  -- What follows `breaker.allow()`.
  unfoldable pub after_allow :
      ModelStep
      → Request
      → Llm Completion
      → (Option LlmError → Llm Completion)
      → Bool × CircuitBreaker
      → Llm Completion
  unfolding budget_blocks after_budget
  after_allow step r skip next (false, b) = set_breaker step.provider b >> skip
  after_allow step r skip next (true, b) = do
    set_breaker step.provider b
    blocked ← budget_blocks step
    after_budget step r b next blocked

  -- One step of the chain, from `self._breakers[step.provider]`. `skip` is the rest of the chain with
  -- the last error as it was, `next` with another.
  unfoldable pub try_step :
      ModelStep
      → Request
      → Llm Completion
      → (Option LlmError → Llm Completion)
      → Option CircuitBreaker
      → Llm Completion
  unfolding after_allow
  try_step step r skip next none = raise (other "KeyError")
  try_step step r skip next (some b) = do now ← clock; after_allow step r skip next (allow b now)

  -- The loop of `complete` over the chain, with the last error so far
  unfoldable pub walk : List ModelStep → Request → Option LlmError → Llm Completion
  walk [] r last s = (raised (none_left r.role last), s)
  walk (step ∷ steps) r last s =
      try_step step r (walk steps r last) (walk steps r) (lookup step.provider s.breakers) s

  abbrev pub routed : Request → Outcome RoutingError (List ModelStep) → Llm Completion
  routed r (returned chain) = walk chain r none
  routed r (raised x) = raise (other "KeyError")

  unfoldable pub complete : Request → Llm Completion
  complete r = routed r (chain_for c.roles r.role)
