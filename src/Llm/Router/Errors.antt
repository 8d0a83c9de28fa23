-- ===== src/Llm/Router/Errors.antt =====
-- The only exception that leaves a request is `LLMUnavailableError`.
use johnny.Prelude.{
  ℕ, String, ◌≡◌, ◌≢◌, true, Option, none, some, List, [], ◌∷◌, arith, lookup, insert,
  lookup-insert, All, eq_iff, Dict,
}
use johnny.Prelude.Exec.{Outcome, returned, raised}
use johnny.Llm.{Completion, LlmError, unavailable, unavailable_by}
use johnny.Llm.Breaker.{CircuitBreaker, new_breaker}
use johnny.Llm.Routing.{ModelStep, Roles, chain_for}
use johnny.Llm.Router.{
  Request, History, Outside, Config, State, walk, complete, contains, unknown_provider,
  validate_routing, new_breakers,
}
use johnny.Llm.Router.Steps.{try_step-Ends}
use johnny.Llm.Router.Counts.{NoCrash}

-- Every registered provider has its circuit breaker.
abbrev pub HasBreakers : List String → Dict CircuitBreaker → Type 0
HasBreakers providers breakers =
    (p : String) → contains p providers ≡ true → lookup p breakers ≢ none

abbrev pub IsRouted : List String → List ModelStep → Type 0
IsRouted providers = All λ step. contains step.provider providers ≡ true

pub HasBreakers-insert :
    (providers : List String) (p : String) (b : CircuitBreaker) (d : Dict CircuitBreaker)
    → HasBreakers providers d
    → HasBreakers providers (insert p b d)
HasBreakers-insert providers p b d h q m = ground (arith, lookup-insert p q b d, h q m)

pub new_breakers-HasBreakers :
    (providers : List String) (threshold reset : ℕ)
    → HasBreakers providers (new_breakers providers threshold reset)
unfolding new_breakers
new_breakers-HasBreakers [] threshold reset p m = cc
new_breakers-HasBreakers (q ∷ qs) threshold reset p m = ground (
  arith,
  eq_iff q p,
  lookup-insert q p (new_breaker threshold reset) (new_breakers qs threshold reset),
  new_breakers-HasBreakers qs threshold reset p,
)

unknown_provider-IsRouted :
    (providers : List String) (steps : List ModelStep)
    → unknown_provider providers steps ≡ none
    → IsRouted providers steps
unfolding unknown_provider
unknown_provider-IsRouted providers [] h = tt
unknown_provider-IsRouted providers (step ∷ steps) h =
    ground (arith, unknown_provider-IsRouted providers steps)

lookup-unknown_provider :
    (providers : List String) (roles : Roles) (role : String) (steps : List ModelStep)
    → validate_routing providers roles ≡ none
    → lookup role roles ≡ some steps
    → unknown_provider providers steps ≡ none
unfolding validate_routing
lookup-unknown_provider providers [] role steps h e = cc
lookup-unknown_provider providers ((j, first) ∷ rest) role steps h e =
    ground (arith, lookup-unknown_provider providers rest role steps)

pub chain_for-IsRouted :
    (providers : List String) (roles : Roles) (role : String) (chain : List ModelStep)
    → validate_routing providers roles ≡ none
    → chain_for roles role ≡ returned chain
    → IsRouted providers chain
unfolding chain_for
chain_for-IsRouted providers roles role chain h e = unknown_provider-IsRouted providers chain (
    ground (
      arith,
      lookup-unknown_provider providers roles role chain h,
      lookup-unknown_provider providers roles "default" chain h,
    ))

-- A completion, or no provider left.
abbrev pub IsTired : Outcome LlmError Completion → Type 0
IsTired (returned done) = Unit
IsTired (raised (unavailable role)) = Unit
IsTired (raised (unavailable_by role e)) = Unit
IsTired (raised x) = ⊥

module _ (o : Outside) (c : Config) (r : Request) (no_crash : NoCrash o)
    (gate : (h : History) (x : LlmError) → o.is_exhausted h ≢ raised x) where
  abbrev Ends : Outcome LlmError Completion × State → Type 0
  Ends z = IsTired z.0 × HasBreakers c.providers z.1.breakers

  walk-Ends :
      (chain : List ModelStep) (last : Option LlmError) (s : State)
      → IsRouted c.providers chain
      → HasBreakers c.providers s.breakers
      → Ends (walk o c chain r last s)
  unfolding walk
  walk-Ends [] none s m h = (tt, h)
  walk-Ends [] (some e) s m h = (tt, h)
  walk-Ends (step ∷ steps) last s m h =
      try_step-Ends o c r no_crash gate (HasBreakers c.providers) Ends step (walk o c steps r)
        (λ b d k. HasBreakers-insert c.providers step.provider b d k) (λ done t k. (tt, k))
        (λ e t k. walk-Ends steps e t m.1 k) (walk o c steps r last)
        (lookup step.provider s.breakers) s (h step.provider m.0)
        (λ t k. walk-Ends steps last t m.1 k) h

-- Let the routing have passed its validation, every provider have its breaker, the role have a chain,
-- no provider end a call by an exception that is not a `ProviderError`, and the budget gate not
-- raise. Then a request ends in a completion or in `LLMUnavailableError`, and every provider still
-- has its breaker.
pub complete-IsTired :
    (o : Outside) (c : Config) (r : Request) (chain : List ModelStep) (s : State)
    → NoCrash o
    → ((h : History) (x : LlmError) → o.is_exhausted h ≢ raised x)
    → validate_routing c.providers c.roles ≡ none
    → chain_for c.roles r.role ≡ returned chain
    → HasBreakers c.providers s.breakers
    → IsTired (complete o c r s).0 × HasBreakers c.providers (complete o c r s).1.breakers
unfolding complete
complete-IsTired o c r chain s no_crash gate valid route h = rw route (
    walk-Ends o c r no_crash gate chain none s
      (chain_for-IsRouted c.providers c.roles r.role chain valid route) h)
