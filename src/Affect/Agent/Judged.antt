-- ===== src/Affect/Agent/Judged.antt =====
-- brain/affect/agent.py: with the model at hand, an appraisal is the model's or the rules', and never fails.
use johnny.Prelude.{◌≡◌, ◌≢◌, refl, ap, String, Option, none, some, List, [], ◌∷◌}
use Prim.Native.String.{◌++◌ as append_text}
use johnny.Prelude.Exec.{Outcome, returned, raised, ◌>>=◌}
use johnny.Float.{Float}
use johnny.Workspace.{WorkspaceItem}
use johnny.Drives.Engine.{DriveEvent, DriveReading}
use johnny.Llm.{Role, text, Message, LlmError, Completion, unavailable, unavailable_by}
use johnny.Llm.Routing.{ModelStep, chain_for}
use johnny.Llm.Router.{Request, History, complete, validate_routing}
use johnny.Llm.Router.Counts.{NoCrash}
use johnny.Llm.Router.Served.{Served, complete-Served}
use johnny.Llm.Router.Errors.{HasBreakers, IsTired, complete-IsTired}
use johnny.Affect.Appraisal.{Appraisal}
use johnny.Affect.Rules.{derive_appraisal, fresh_input}
use johnny.Affect.Agent.{
  Affect, Feeling, Routed, appraise, appraise_by, appraise_with_llm, request, answered, or_derived,
  parsed, failure_of,
}

-- The request ends with a message of the user that has the situation in it.
abbrev pub Mentions : String → Request → Type 0
Mentions situation r =
    (system : Message) × (before : String) × (after : String) × (r.messages
      ≡ system
        ∷ record {
          role = Role.user;
          content = text (append_text before (append_text situation after));
        }
        ∷ [])

module _ {W : Type 0} ⦃f : Float W⦄ (a : Affect W) where
  -- Where an appraisal is from, by what the router answers.
  abbrev pub From : Appraisal W → Outcome LlmError Completion → Appraisal W → Type 0
  From derived (returned done) x = a.parse done.content ≡ returned x
  From derived (raised (unavailable role)) x = x ≡ derived
  From derived (raised (unavailable_by role cause)) x = x ≡ derived
  From derived (raised e) x = ⊥

  -- The same, by the first interaction of the situation, if there is one.
  abbrev pub Judged : Routed → Feeling W → Appraisal W → Option String → Appraisal W → Type 0
  Judged routed s derived none x = x ≡ derived
  Judged routed s derived (some situation) x =
      Mentions situation (request a situation)
      × From derived (complete routed.outside routed.config (request a situation) s.router).0 x

  answered-From :
      (derived : Appraisal W) (situation : String) (chain : List ModelStep) (routed : Routed)
      (z : Outcome LlmError Completion × _) (t : Feeling W)
      → IsTired z.0
      → Served routed.outside (request a situation) chain z
      → (x : Appraisal W) × ((((λ (_ : Feeling W). (answered a z.0, t)) >>= or_derived a derived)
            t).0
          ≡ returned x)
        × From derived z.0 x
  answered-From derived situation chain routed (returned done, r) t tired served =
      by_parse (a.parse done.content) refl
    where
      by_parse :
          (p : Outcome String (Appraisal W))
          → a.parse done.content ≡ p
          → (x : Appraisal W) × ((((λ (_ : Feeling W). (parsed a p, t)) >>= or_derived a derived)
                t).0
              ≡ returned x)
            × (a.parse done.content ≡ returned x)
      by_parse (returned x) e = (x, refl, e)
      by_parse (raised m) e = absurd (cc (served.0, ap failure_of e))
  answered-From derived situation chain routed (raised (unavailable role), r) t tired served =
      (derived, refl, refl)
  answered-From derived situation chain routed (raised (unavailable_by role cause), r) t tired
        served =
      (derived, refl, refl)
  answered-From derived situation chain routed (raised e, r) t tired served = absurd tired

  -- Let the assumptions hold under which a request of the role `affect` ends in a completion or with no
  -- provider left. Then an appraisal never raises. With no interaction in the workspace it is the one
  -- derived by rules. With one, a message to the model has the text of the first, and the appraisal is
  -- the one that the router's completion says, or, with no provider left, the one derived by rules.
  pub appraise-Judged :
      (routed : Routed) (contents : List (WorkspaceItem W)) (drives : List (DriveReading W))
      (events : List (DriveEvent W)) (chain : List ModelStep) (s : Feeling W)
      → a.router ≡ some routed
      → NoCrash routed.outside
      → ((h : History) (x : LlmError) → routed.outside.is_exhausted h ≢ raised x)
      → validate_routing routed.config.providers routed.config.roles ≡ none
      → chain_for routed.config.roles "affect" ≡ returned chain
      → HasBreakers routed.config.providers s.router.breakers
      → (x : Appraisal W) × ((appraise a contents drives events s).0 ≡ returned x)
        × Judged routed s
            (derive_appraisal a.numbers contents drives events)
            (fresh_input contents)
            x
  unfolding appraise appraise_with_llm
  appraise-Judged routed contents drives events chain s has no_crash gate valid route h =
      rw has (by_input (fresh_input contents))
    where
      derived : Appraisal W
      derived = derive_appraisal a.numbers contents drives events

      by_input :
          (input : Option String)
          → (x : Appraisal W) × ((appraise_by a input (some routed) derived s).0 ≡ returned x)
            × Judged routed s derived input x
      by_input none = (derived, refl, refl)
      by_input (some situation) =
          let r = request a situation in
          let z = complete routed.outside routed.config r s.router in
          let (x, ok, from) =
            answered-From derived situation chain routed z (record s { router = z.1 })
              (complete-IsTired routed.outside routed.config r chain s.router no_crash gate valid
                route h).0
              (complete-Served routed.outside routed.config r chain s.router route) in
          (x, ok, ((_, _, _, refl), from))
