-- ===== src/Effectors/Dispatch/System.antt =====
-- The dispatch, the belt and the vetted actions that a caller may keep, as a transition system.
use mathlib.Core.Path.{subst}
use johnny.Prelude.{
  sym, String, ◌≡◌, inl, refl, Option, none, some, List, [], ◌∷◌, ◌++◌, All, All-middle,
}
use johnny.Prelude.Exec.{Outcome, returned, raised}
use johnny.Json.{Fields}
use johnny.Workspace.{WorkspaceItem}
use johnny.Llm.{LlmError}
use johnny.Effectors.Tools.{
  Tool, Registry, danger_text, register, retire, validate_args, get, IsNamed, register-IsNamed,
  retire-IsNamed,
}
use johnny.Effectors.Conscience.{ProposedAction, Verdict}
use johnny.Effectors.Dispatch.{
  Failure, consulted, VettedAction, Outside, State, commit, ask, judged, consult, vet_with, vet,
}
use johnny.Effectors.Dispatch.Gate.{Fits, Gated, Backed, IsGated, Backed-more, commit-IsGated}

module _ {M : Type 0} {W : Type 0} (o : Outside)
    (judge : ProposedAction → List (WorkspaceItem W) → M → Outcome LlmError Verdict × M) where
  -- What one call of the dispatch, or of the registry, does to the state and to the vetted actions that
  -- the caller keeps: `vet` adds one if it returns one, and `commit` may be called with any of them,
  -- at any later time and as often as the caller likes.
  pub data Step (s : State M) (kept : List VettedAction)
      : State M → List VettedAction → Type 0 where
    vets :
        (action : ProposedAction) (contents : List (WorkspaceItem W)) {v : VettedAction}
        {t : State M}
        → vet o judge action contents s ≡ (returned v, t)
        → Step s kept t (v ∷ kept)
    vet_fails :
        (action : ProposedAction) (contents : List (WorkspaceItem W)) {x : Failure} {t : State M}
        → vet o judge action contents s ≡ (raised x, t)
        → Step s kept t kept
    commits :
        (before : List VettedAction) (v : VettedAction) (rest : List VettedAction)
        → kept ≡ before ++ v ∷ rest
        → Step s kept (commit o v s).1 kept
    registers :
        (tool : Tool) {tools : Registry}
        → register tool s.registry ≡ returned tools
        → Step s kept (record s { registry = tools }) kept
    retires : (name : String) → Step s kept (record s { registry = retire name s.registry }) kept

  pub data Reach (s : State M) : State M → List VettedAction → Type 0 where
    here : Reach s s []
    next :
        {t u : State M} {kept kept' : List VettedAction}
        → Reach s t kept
        → Step t kept u kept'
        → Reach s u kept'

  -- In some state of the Conscience, its answer about the action is this verdict.
  abbrev pub Says : ProposedAction → Verdict → Type 0
  Says action v =
      (contents : List (WorkspaceItem W)) × (mind : M) × (after : M) × (judge action contents mind
        ≡ (returned v, after))

  -- `vet` adds at most one consultation, and what it returns is backed by it.
  abbrev Vetted : List VettedAction → Outcome Failure VettedAction × State M → Type 0
  Vetted kept (returned v, t) = IsGated Says t (v ∷ kept)
  Vetted kept (raised x, t) = IsGated Says t kept

  module _ (kept : List VettedAction) (s : State M) (k : IsGated Says s kept) where
    ask-Vetted :
        (action : ProposedAction) (tool : Tool) (contents : List (WorkspaceItem W)) (args : Fields)
        → Fits action tool args
        → let (answer, t) = ask o judge action contents s in
          Vetted kept (judged o action tool args answer t)
    unfolding ask judged
    ask-Vetted action tool contents args fits = by_answer (judge action contents s.mind) refl
      where
        by_answer :
            (z : Outcome LlmError Verdict × M)
            → judge action contents s.mind ≡ z
            → Vetted kept (
                judged o action tool args z.0
                  (record s { mind = z.1; effects = consulted action z.0 ∷ s.effects }))
        by_answer (raised x, mind) e = record {
          named = k.named;
          gated = k.gated;
          backed = Backed-more Says (consulted action (raised x)) s.effects kept k.backed;
        }
        by_answer (returned v, mind) e = record {
          named = k.named;
          gated = k.gated;
          backed = (
            (fits, inl (refl, refl), (contents, s.mind, mind, e)),
            Backed-more Says (consulted action (returned v)) s.effects kept k.backed,
          );
        }

    consult-Vetted :
        (action : ProposedAction) (tool : Tool) (contents : List (WorkspaceItem W))
        (valid : Outcome String Fields)
        → tool.validate action.args ≡ valid
        → tool.name ≡ action.tool
        → action.danger ≡ danger_text tool.danger
        → Vetted kept (consult o judge action tool contents valid s)
    unfolding consult
    consult-Vetted action tool contents (raised e) v n d = k
    consult-Vetted action tool contents (returned args) v n d =
        ask-Vetted action tool contents args (record { named = n; stamped = d; valid = v })

    vet-Vetted :
        (action : ProposedAction) (contents : List (WorkspaceItem W))
        → Vetted kept (vet o judge action contents s)
    unfolding vet vet_with validate_args
    vet-Vetted action contents = by_tool (get action.tool s.registry) refl
      where
        by_tool :
            (tool : Option Tool)
            → get action.tool s.registry ≡ tool
            → Vetted kept (vet_with o judge action contents tool s)
        by_tool none e = k
        by_tool (some tool) e =
            consult-Vetted (record action { danger = danger_text tool.danger }) tool contents _ refl
              (k.named action.tool tool e) refl

  Step-IsGated :
      {s t : State M} {kept kept' : List VettedAction}
      → Step s kept t kept'
      → IsGated Says s kept
      → IsGated Says t kept'
  Step-IsGated {s} {t} {kept} (vets action contents {v} e) k =
      subst (Vetted kept) e (vet-Vetted kept s k action contents)
  Step-IsGated {s} {t} {kept} (vet_fails action contents e) k =
      subst (Vetted kept) e (vet-Vetted kept s k action contents)
  Step-IsGated {s} {t} {kept} (commits before v rest e) k =
      commit-IsGated Says o kept v s
        (All-middle (Backed Says s.effects) before v rest
          (subst (All (Backed Says s.effects)) e k.backed))
        k
  Step-IsGated {s} (registers tool e) k = record {
    named = register-IsNamed tool s.registry _ k.named e;
    gated = k.gated;
    backed = k.backed;
  }
  Step-IsGated {s} (retires name) k = record {
    named = retire-IsNamed s.registry name k.named;
    gated = k.gated;
    backed = k.backed;
  }

  -- From a dispatch that has done nothing, through any calls of `vet`, of `commit` with any vetted action
  -- got before, and of the registry, in any order: each run of a tool was of the tool that the action
  -- names, on the arguments that the tool's schema validated, after a call of the Conscience about that
  -- action with the tool's own danger class, whose answer was a verdict that allows it.
  pub Reach-Gated :
      {s t : State M} {kept : List VettedAction}
      → Reach s t kept
      → s.effects ≡ []
      → IsNamed s.registry
      → Gated Says t.effects
  Reach-Gated {s} r e n = (go r).gated
    where
      go : {t : State M} {kept : List VettedAction} → Reach s t kept → IsGated Says t kept
      go here = record { named = n; gated = subst (Gated Says) (sym e) tt; backed = tt }
      go (next r st) = Step-IsGated st (go r)
