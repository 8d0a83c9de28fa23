-- ===== src/Effectors/Conscience/Closed.antt =====
-- The Conscience fails closed, and its verdict is the model's alone.
use mathlib.Core.Path.{subst}
use johnny.Prelude.{String, ◌≡◌, ◌≢◌, refl, ap, Option, none, some, List}
use johnny.Prelude.Exec.{Outcome, returned, raised}
use johnny.Json.{Fields}
use johnny.Workspace.{WorkspaceItem}
use johnny.Llm.{Completion, LlmError, unavailable, unavailable_by}
use johnny.Llm.Routing.{ModelStep, chain_for}
use johnny.Llm.Router.{Request, History, Outside, Config, State, complete, validate_routing}
use johnny.Llm.Router.Counts.{NoCrash}
use johnny.Llm.Router.Served.{Accepts, Served, complete-Served}
use johnny.Llm.Router.Errors.{HasBreakers, IsTired, complete-IsTired}
use johnny.Effectors.Conscience.{
  ProposedAction, Choice, Verdict, unavailable_reason, judge_completion, parse_verdict, Conscience,
  verdict_schema, verdict_error, vetting_request, vet,
}

abbrev pub holding_off : Verdict
holding_off = record { verdict = Choice.veto; reason = unavailable_reason }

-- How a verdict comes about: the model's answer says it, or no provider was left.
abbrev pub Judged : (String → Option Verdict) → Outcome LlmError Completion → Verdict → Type 0
Judged parse (returned done) v = parse done.content ≡ some v
Judged parse (raised (unavailable role)) v = v ≡ holding_off
Judged parse (raised (unavailable_by role cause)) v = v ≡ holding_off
Judged parse (raised x) v = ⊥

judge_completion-Judged :
    (o : Outside) (parse : String → Option Verdict) (r : Request) (chain : List ModelStep)
    (result : Outcome LlmError Completion) (s : State)
    → r.schema ≡ some (verdict_schema parse)
    → IsTired result
    → Served o r chain (result, s)
    → (v : Verdict) × (judge_completion parse result ≡ returned v) × Judged parse result v
unfolding judge_completion parse_verdict
judge_completion-Judged o parse r chain (returned done) s schema tired served =
    by_answer (parse done.content) refl
  where
    accepted : Accepts (some (verdict_schema parse)) done.content
    accepted = subst (λ k. Accepts k done.content) schema served.0

    by_answer :
        (answer : Option Verdict)
        → parse done.content ≡ answer
        → (v : Verdict) × (judge_completion parse (returned done) ≡ returned v)
          × (parse done.content ≡ some v)
    by_answer none e = absurd (cc (accepted, ap verdict_error e))
    by_answer (some v) e = (v, rw e, e)
judge_completion-Judged o parse r chain (raised (unavailable role)) s schema tired served =
    (holding_off, refl, refl)
judge_completion-Judged o parse r chain (raised (unavailable_by role cause)) s schema tired served =
    (holding_off, refl, refl)
judge_completion-Judged o parse r chain (raised x) s schema tired served = absurd tired

-- Let the assumptions hold under which a request to the router ends in a completion or in no provider
-- left. Then vetting always returns a verdict: the one that the model's answer says, or, with no
-- provider left, a veto with the fixed reason. So it allows only what an answer of the model allows.
pub vet-Judged {ℓ} :
    {W : Type ℓ} (dumps : Fields → String) (parse : String → Option Verdict) (o : Outside)
    (c : Config) (agent : Conscience) (action : ProposedAction) (contents : List (WorkspaceItem W))
    (chain : List ModelStep) (s : State)
    → NoCrash o
    → ((h : History) (x : LlmError) → o.is_exhausted h ≢ raised x)
    → validate_routing c.providers c.roles ≡ none
    → chain_for c.roles "conscience" ≡ returned chain
    → HasBreakers c.providers s.breakers
    → (v : Verdict) × ((vet dumps parse o c agent action contents s).0 ≡ returned v)
      × Judged parse (complete o c (vetting_request dumps parse agent action contents) s).0 v
unfolding vet vetting_request
vet-Judged dumps parse o c agent action contents chain s no_crash gate valid route h =
    let r = vetting_request dumps parse agent action contents in
    judge_completion-Judged o parse r chain (complete o c r s).0 (complete o c r s).1 refl
      (complete-IsTired o c r chain s no_crash gate valid route h).0
      (complete-Served o c r chain s route)
