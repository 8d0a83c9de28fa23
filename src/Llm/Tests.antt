-- ===== src/Llm/Tests.antt =====
-- The router, the breaker and their theorems on a chain of two providers: the first times out, the
-- second answers.
use johnny.Prelude.{
  ◌≡◌, refl, String, true, false, none, some, List, [], ◌∷◌, if◌then◌else◌, ◌==◌, arith,
}
use johnny.Prelude.Exec.{returned}
use johnny.Llm.{Completion, Role, text}
use johnny.Llm.Breaker.{CircuitState, CircuitBreaker, new_breaker, allow}
use johnny.Llm.Breaker.Refines.{Use, ask, failed, run, health, healthy, may_call, allow-eq-may_call}
use johnny.Llm.Pricing.{estimate_cost, price_of, cost_at}
use johnny.Llm.Routing.{ModelStep, chain_for}
use johnny.Llm.Router
use johnny.Llm.Router.{
  Request, Call, Reply, History, Outside, Config, State, new_breakers, complete, validate_routing,
}
use johnny.Llm.Router.Counts.{NoCrash}
use johnny.Llm.Router.Served.{Accepts, EndsOk, complete_served}
use johnny.Llm.Router.Errors.{HasBreakers, IsTired, complete-IsTired, new_breakers-HasBreakers}
use johnny.Llm.Router.Available.{IsReturned, NeverBlocked, AlwaysAnswers, complete-IsReturned}
use johnny.Llm.Router.Budget.{paid_calls, paid_calls-complete}

abbrev paid_step : ModelStep
paid_step = record { provider = "groq"; model = "llama-3.3-70b-versatile" }

abbrev free_step : ModelStep
free_step = record { provider = "ollama"; model = "llama3" }

abbrev two_steps : List ModelStep
two_steps = paid_step ∷ free_step ∷ []

abbrev two_providers : Config
two_providers = record {
  providers = "groq" ∷ "ollama" ∷ [];
  roles = ("default", two_steps) ∷ [];
  schema_retries = 1;
  has_budget_gate = true;
}

abbrev greeting : Completion
greeting = record {
  content = "hello";
  reasoning = none;
  provider = "ollama";
  model = "llama3";
  prompt_tokens = 5;
  completion_tokens = 2;
  finish_reason = some "stop";
}

abbrev reply_of : String → Reply
reply_of provider = if provider == "groq" then Reply.timed_out "slow" else Reply.answered greeting

abbrev first_slow : Outside
first_slow = record {
  reply = λ h call. reply_of call.provider;
  time = λ h. 100;
  timer_ms = λ h. 7;
  name = λ key. key;
  is_exhausted = λ h. returned false;
}

abbrev broke : Outside
broke = record first_slow { is_exhausted = λ h. returned true }

abbrev hello : Request
hello = record {
  role = "narration";
  messages = record { role = Role.user; content = text "hi" } ∷ [];
  schema = none;
  temperature = 70;
  max_tokens = none;
}

abbrev fresh : State
fresh = record { breakers = new_breakers ("groq" ∷ "ollama" ∷ []) 3 30; history = [] }

first_slow-NoCrash : NoCrash first_slow
first_slow-NoCrash h call e = ground (arith, e)

complete_served_example :
    Accepts none "hello"
    × EndsOk first_slow hello two_steps greeting
        (complete first_slow two_providers hello fresh).1.history
unfolding complete chain_for new_breakers Router.walk Router.try_step allow new_breaker
    estimate_cost Router.invoke_with_feedback Router.on_bad_answer Router.attempt Router.settle
    Router.log
complete_served_example =
    complete_served first_slow two_providers hello two_steps fresh
      (complete first_slow two_providers hello fresh).1 greeting refl refl

complete-IsTired_example :
    IsTired (complete first_slow two_providers hello fresh).0
    × HasBreakers
        ("groq" ∷ "ollama" ∷ [])
        (complete first_slow two_providers hello fresh).1.breakers
unfolding chain_for validate_routing Router.unknown_provider
complete-IsTired_example =
    complete-IsTired first_slow two_providers hello two_steps fresh first_slow-NoCrash
      (λ h x e. cc e) refl refl (new_breakers-HasBreakers ("groq" ∷ "ollama" ∷ []) 3 30)

-- The budget is spent, and the first provider would be slow: the local one serves the request.
abbrev ollama_breaker : CircuitBreaker
ollama_breaker = new_breaker 3 30

ollama-NeverBlocked : NeverBlocked broke two_providers "ollama"
unfolding Router.budget_blocks estimate_cost price_of cost_at
ollama-NeverBlocked step s e = rw e refl

ollama-AlwaysAnswers : AlwaysAnswers broke hello "ollama"
ollama-AlwaysAnswers h call e = (greeting, rw e refl, refl)

complete-IsReturned_example : IsReturned (complete broke two_providers hello fresh).0
unfolding chain_for validate_routing Router.unknown_provider new_breakers new_breaker
complete-IsReturned_example =
    complete-IsReturned broke two_providers hello two_steps fresh "ollama" first_slow-NoCrash
      (λ h x e. cc e) refl refl (new_breakers-HasBreakers ("groq" ∷ "ollama" ∷ []) 3 30) refl
      (ollama_breaker, refl, refl) ollama-NeverBlocked ollama-AlwaysAnswers

paid_calls-complete_example :
    paid_calls (complete broke two_providers hello fresh).1 ≡ paid_calls fresh
paid_calls-complete_example = paid_calls-complete broke two_providers hello fresh refl (λ h. refl)

abbrev three_failures : List Use
three_failures = failed 1 ∷ ask 2 ∷ failed 3 ∷ failed 4 ∷ []

allow-eq-may_call_example :
    (allow (run (new_breaker 3 30) three_failures) 10).0
    ≡ may_call 3 30 (health healthy three_failures) 10
allow-eq-may_call_example = allow-eq-may_call 3 30 three_failures 10 (omega arith) (omega arith)

abbrev trial : CircuitBreaker
trial = record (new_breaker 3 30) { status = CircuitState.half_open; opened_at = some 5 }

abbrev tripped : CircuitBreaker
tripped = record (new_breaker 3 30) { status = CircuitState.opened; opened_at = some 5 }
