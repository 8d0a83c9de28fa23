-- ===== src/Llm/Router/Available.antt =====
-- Graceful degradation: one provider of the chain that answers is enough.
use mathlib.Core.Path.{subst}
use johnny.Prelude.{
  ℕ, zero, suc, String, ◌≡◌, ◌≢◌, refl, sym, ap, ◌∙◌, inl, inr, Bool, true, false, Option, none,
  some, List, [], ◌∷◌, Dict, lookup, insert, lookup-insert, any, ◌==◌, eq_iff, Bool-cases, arith,
}
use johnny.Prelude.Exec.{Outcome, returned, raised, bind_lem}
use johnny.Llm.{Message, Completion, LlmError}
use johnny.Llm.Breaker.{CircuitState, CircuitBreaker, allow}
use johnny.Llm.Routing.{ModelStep, chain_for}
use johnny.Llm.Router.{
  Request, Call, Reply, answered, History, Outside, Config, State, Llm, log, judge, complaint,
  settle, attempt, on_bad_answer, invoke_with_feedback, conclude, after_budget, budget_blocks,
  after_allow, try_step, walk, complete, call_of, read_timer, read_clock, validate_routing,
}
use johnny.Llm.Router.Counts.{NoCrash}
use johnny.Llm.Router.Steps.{try_step-Ends}
use johnny.Llm.Router.Errors.{HasBreakers, HasBreakers-insert, IsRouted, chain_for-IsRouted}

abbrev pub IsReturned : Outcome LlmError Completion → Type 0
IsReturned (returned done) = Unit
IsReturned (raised x) = ⊥

-- The provider's circuit is closed.
abbrev pub IsClosed : String → Dict CircuitBreaker → Type 0
IsClosed p breakers =
    (b : CircuitBreaker) × (lookup p breakers ≡ some b) × (b.status ≡ CircuitState.closed)

-- Each call of the provider for the request is answered with what the schema accepts.
abbrev pub AlwaysAnswers : Outside → Request → String → Type 0
AlwaysAnswers o r p =
    (h : History) (call : Call)
    → call.provider ≡ p
    → (done : Completion) × (o.reply h call ≡ answered done)
      × (complaint r.schema done.content ≡ none)

-- The budget gate never blocks a step of the provider.
abbrev pub NeverBlocked : Outside → Config → String → Type 0
NeverBlocked o c p =
    (step : ModelStep) (s : State)
    → step.provider ≡ p
    → (budget_blocks o c step s).0 ≡ returned false

abbrev pub is_of : String → ModelStep → Bool
is_of p step = step.provider == p

allow-closed :
    (b : CircuitBreaker) (now : ℕ) → b.status ≡ CircuitState.closed → allow b now ≡ (true, b)
unfolding allow
allow-closed b now h = rw h refl

module _ (o : Outside) (c : Config) (r : Request) (p : String) (answers : AlwaysAnswers o r p)
    (unblocked : NeverBlocked o c p) where
  settle-answered :
      (step : ModelStep) (start : ℕ) (done : Completion) (reply : Reply) (s : State)
      → reply ≡ answered done
      → complaint r.schema done.content ≡ none
      → IsReturned (settle o c step r start reply s).0
  unfolding settle log
  settle-answered step start done reply s e accepted =
      subst (λ a. IsReturned (settle o c step r start a s).0) (sym e)
        (subst (λ k. IsReturned (judge o c step r done start k s).0) (sym accepted) tt)

  attempt-answered :
      (step : ModelStep) (messages : List Message) (s : State)
      → step.provider ≡ p
      → IsReturned (attempt o c step r messages s).0
  unfolding attempt
  attempt-answered step messages s e =
      let call = call_of o c step r messages in
      let (done, said, accepted) = answers (read_timer ∷ s.history) call e in
      settle-answered step (o.timer_ms s.history) done (o.reply (read_timer ∷ s.history) call) _
        said accepted

  invoke-answered :
      (step : ModelStep) (messages : List Message) (left : ℕ) (s : State)
      → step.provider ≡ p
      → IsReturned (invoke_with_feedback o c step r messages left s).0
  unfolding invoke_with_feedback on_bad_answer
  invoke-answered step messages zero s e = attempt-answered step messages s e
  invoke-answered step messages (suc left) s e =
      let (result, t) = attempt o c step r messages s in
      pass _ result t (attempt-answered step messages s e)
    where
      pass :
          (retry : String → String → Llm Completion) (result : Outcome LlmError Completion)
          (t : State)
          → IsReturned result
          → IsReturned (on_bad_answer o c retry result t).0
      pass retry (returned done) t h = tt
      pass retry (raised x) t h = absurd h

  after_budget-answered :
      (step : ModelStep) (next : Option LlmError → Llm Completion) (b : CircuitBreaker) (s : State)
      → step.provider ≡ p
      → IsReturned (after_budget o c step r b next false s).0
  unfolding after_budget conclude
  after_budget-answered step next b s e =
      let (result, t) = invoke_with_feedback o c step r r.messages c.schema_retries s in
      pass result t (invoke-answered step r.messages c.schema_retries s e)
    where
      pass :
          (result : Outcome LlmError Completion) (t : State)
          → IsReturned result
          → IsReturned (conclude o c step b next result t).0
      pass (returned done) t h = tt
      pass (raised x) t h = absurd h

  try_step-answered :
      (step : ModelStep) (skip : Llm Completion) (next : Option LlmError → Llm Completion)
      (found : Option CircuitBreaker) (b : CircuitBreaker) (s : State)
      → step.provider ≡ p
      → found ≡ some b
      → b.status ≡ CircuitState.closed
      → IsReturned (try_step o c step r skip next found s).0
  unfolding try_step after_allow
  try_step-answered step skip next found b s e at closed =
      let now = o.time s.history in
      let t = record s { history = read_clock ∷ s.history } in
      subst (λ k. IsReturned (try_step o c step r skip next k s).0) (sym at)
        (subst (λ (k : Bool × CircuitBreaker). IsReturned (after_allow o c step r skip next k t).0)
          (sym (allow-closed b now closed)) (passed b t))
    where
      passed :
          (b : CircuitBreaker) (t : State)
          → IsReturned (after_allow o c step r skip next (true, b) t).0
      passed b t =
          let u = record t { breakers = insert step.provider b t.breakers } in
          bind_lem (λ (out : Outcome LlmError Completion × State). IsReturned out.0)
            (budget_blocks o c step) (after_budget o c step r b next) u
            (λ x h. cc (h, unblocked step u e))
            (λ blocked h.
              let no : blocked ≡ false = cc (h, unblocked step u e) in
              subst
                (λ (k : Bool).
                  IsReturned (after_budget o c step r b next k (budget_blocks o c step u).1).0)
                (sym no) (after_budget-answered step next b (budget_blocks o c step u).1 e))

  abbrev Up : Dict CircuitBreaker → Type 0
  Up d = HasBreakers c.providers d × IsClosed p d

  Up-insert :
      (step : ModelStep) (b : CircuitBreaker) (d : Dict CircuitBreaker)
      → is_of p step ≡ false
      → Up d
      → Up (insert step.provider b d)
  Up-insert step b d e (has, (b', at, closed)) = (
    HasBreakers-insert c.providers step.provider b d has,
    (b', ground (arith, e, at, lookup-insert step.provider p b d), closed),
  )

  module _ (no_crash : NoCrash o)
      (gate : (h : History) (x : LlmError) → o.is_exhausted h ≢ raised x) where
    later_of :
        (step : ModelStep) (steps : List ModelStep)
        → any (is_of p) (step ∷ steps) ≡ true
        → is_of p step ≡ false
        → any (is_of p) steps ≡ true
    later_of step steps h e = rw e at h

    walk-answered :
        (chain : List ModelStep) (last : Option LlmError) (s : State)
        → IsRouted c.providers chain
        → any (is_of p) chain ≡ true
        → Up s.breakers
        → IsReturned (walk o c chain r last s).0
    unfolding walk
    walk-answered [] last s m h up = cc h
    walk-answered (step ∷ steps) last s m h up = elim (Bool-cases (is_of p step)) [
      | inl e ↦
          let (b, at, closed) = up.1 in
          let same = (eq_iff step.provider p).0 e in
          try_step-answered step (walk o c steps r last) (walk o c steps r)
            (lookup step.provider s.breakers) b s same
            (ap (λ (q : String). lookup q s.breakers) same ∙ at) closed
      | inr e ↦
          try_step-Ends o c r no_crash gate Up
            (λ (out : Outcome LlmError Completion × State). IsReturned out.0) step
            (walk o c steps r) (λ b d k. Up-insert step b d e k) (λ done t k. tt)
            (λ x t k. walk-answered steps x t m.1 (later_of step steps h e) k)
            (walk o c steps r last) (lookup step.provider s.breakers) s (up.0 step.provider m.0)
            (λ t k. walk-answered steps last t m.1 (later_of step steps h e) k) up
    ]

-- Let the assumptions hold under which a request ends in a completion or in no provider left. If one
-- provider of the role's chain has a closed circuit, is never blocked by the budget and answers every
-- call with what the requested schema accepts, then the request returns a completion, whatever the
-- other providers of the chain answer, how slow they are and whether their circuits are open.
pub complete-IsReturned :
    (o : Outside) (c : Config) (r : Request) (chain : List ModelStep) (s : State) (p : String)
    → NoCrash o
    → ((h : History) (x : LlmError) → o.is_exhausted h ≢ raised x)
    → validate_routing c.providers c.roles ≡ none
    → chain_for c.roles r.role ≡ returned chain
    → HasBreakers c.providers s.breakers
    → any (is_of p) chain ≡ true
    → IsClosed p s.breakers
    → NeverBlocked o c p
    → AlwaysAnswers o r p
    → IsReturned (complete o c r s).0
unfolding complete
complete-IsReturned o c r chain s p no_crash gate valid route has on_chain closed unblocked
      answers =
    rw route (
      walk-answered o c r p answers unblocked no_crash gate chain none s
        (chain_for-IsRouted c.providers c.roles r.role chain valid route) on_chain (has, closed))
