-- ===== src/Effectors/Dispatch/Gate.antt =====
-- What stands behind each run of a tool: the predicates, and `commit`.
use johnny.Prelude.{
  String, ◌≡◌, ◌⊎◌, inr, refl, Bool, true, false, Option, none, some, List, [], ◌∷◌, All,
}
use johnny.Prelude.Exec.{Outcome, returned, raised, pure, ◌>>◌, bind_lem}
use johnny.Json.{Fields}
use johnny.Workspace.{WorkspaceEvent}
use johnny.Effectors.Tools.{Tool, ToolResult, danger_text, IsNamed}
use johnny.Effectors.Conscience.{ProposedAction, Verdict, allowed}
use johnny.Effectors.Dispatch.{
  AuditRow, Effect, consulted, ran, audited, emitted, DispatchOutcome, VettedAction, Outside, State,
  record_row, emit, run_tool, commit_by, commit, recorded, sent, ended, report, after_run,
}

-- The Conscience was asked about the action, and this verdict was its answer.
abbrev pub Consulted : ProposedAction → Verdict → List Effect → Type 0
Consulted a v [] = ⊥
Consulted a v (consulted b w ∷ es) = ((b ≡ a) × (w ≡ returned v)) ⊎ Consulted a v es
Consulted a v (_ ∷ es) = Consulted a v es

-- The action goes with the tool of its name, the tool's own danger class and the arguments that the
-- tool's schema made of the proposed ones.
pub record Fits (a : ProposedAction) (tool : Tool) (args : Fields) : Type 0 where
  pub named : tool.name ≡ a.tool
  pub stamped : a.danger ≡ danger_text tool.danger
  pub valid : tool.validate a.args ≡ returned args

-- `Says a v`: the Conscience has answered a question about `a` by `v`.
abbrev pub Licensed : (ProposedAction → Verdict → Type 0) → Tool → Fields → List Effect → Type 0
Licensed Says tool args es =
    (a : ProposedAction) × (v : Verdict) × Fits a tool args
    × Consulted a v es
    × Says a v
    × (allowed v ≡ true)

-- Each run of a tool comes after a verdict of the Conscience that allowed it.
abbrev pub Gated : (ProposedAction → Verdict → Type 0) → List Effect → Type 0
Gated Says [] = Unit
Gated Says (ran tool args ∷ es) = Licensed Says tool args es × Gated Says es
Gated Says (_ ∷ es) = Gated Says es

abbrev pub Backed : (ProposedAction → Verdict → Type 0) → List Effect → VettedAction → Type 0
Backed Says es v =
    Fits v.action v.tool v.validated × Consulted v.action v.verdict es × Says v.action v.verdict

pub record IsGated {M : Type 0} (Says : ProposedAction → Verdict → Type 0) (s : State M)
    (kept : List VettedAction) : Type 0 where
  pub named : IsNamed s.registry
  pub gated : Gated Says s.effects
  pub backed : All (Backed Says s.effects) kept

-- One more effect that is no run, or a licensed run, keeps what was known.
pub Consulted-more :
    (e : Effect) (a : ProposedAction) (v : Verdict) (es : List Effect)
    → Consulted a v es
    → Consulted a v (e ∷ es)
Consulted-more (consulted b w) a v es k = inr k
Consulted-more (ran tool args) a v es k = k
Consulted-more (audited row) a v es k = k
Consulted-more (emitted event) a v es k = k

pub Backed-more :
    (Says : ProposedAction → Verdict → Type 0) (e : Effect) (es : List Effect)
    (kept : List VettedAction)
    → All (Backed Says es) kept
    → All (Backed Says (e ∷ es)) kept
Backed-more Says e es [] k = tt
Backed-more Says e es (v ∷ kept) k =
    ((k.0.0, Consulted-more e v.action v.verdict es k.0.1, k.0.2), Backed-more Says e es kept k.1)

module _ {M : Type 0} (Says : ProposedAction → Verdict → Type 0) (o : Outside)
    (kept : List VettedAction) where
  record_row-IsGated :
      (row : AuditRow) (s : State M)
      → IsGated Says s kept
      → IsGated Says (record_row o row s).1 kept
  unfolding record_row
  record_row-IsGated row s k = by_answer (o.audit_error s.effects row)
    where
      by_answer : (e : Option String) → IsGated Says (recorded o row e s).1 kept
      by_answer none = record {
        named = k.named;
        gated = k.gated;
        backed = Backed-more Says (audited row) s.effects kept k.backed;
      }
      by_answer (some e) = k

  emit-IsGated :
      (event : WorkspaceEvent) (s : State M)
      → IsGated Says s kept
      → IsGated Says (emit o event s).1 kept
  unfolding emit
  emit-IsGated event s k = by_answer (o.broadcast_error s.effects event)
    where
      by_answer : (e : Option String) → IsGated Says (sent o event e s).1 kept
      by_answer none = record {
        named = k.named;
        gated = k.gated;
        backed = Backed-more Says (emitted event) s.effects kept k.backed;
      }
      by_answer (some e) = k

  run_tool-IsGated :
      (tool : Tool) (args : Fields) (s : State M)
      → Licensed Says tool args s.effects
      → IsGated Says s kept
      → IsGated Says (run_tool o tool args s).1 kept
  unfolding run_tool
  run_tool-IsGated tool args s l k = by_answer (o.run s.effects tool args)
    where
      after : State M
      after = record s { effects = ran tool args ∷ s.effects }

      now_gated : IsGated Says after kept
      now_gated = record {
        named = k.named;
        gated = (l, k.gated);
        backed = Backed-more Says (ran tool args) s.effects kept k.backed;
      }

      by_answer : (r : Outcome String ToolResult) → IsGated Says (ended o r after).1 kept
      by_answer (returned result) = now_gated
      by_answer (raised e) = now_gated

  report-IsGated :
      (row : AuditRow) (event : WorkspaceEvent) (outcome : DispatchOutcome) (s : State M)
      → IsGated Says s kept
      → IsGated Says (report o row event outcome s).1 kept
  unfolding report
  report-IsGated row event outcome s k =
      let k' = record_row-IsGated row s k in
      let k'' = emit-IsGated event (record_row o row s).1 k' in
      bind_lem (λ z. IsGated Says z.1 kept) (record_row o row) (λ _. emit o event >> pure outcome) s
        (λ x _. k')
        (λ _ _.
          bind_lem {A = Unit {0}} (λ z. IsGated Says z.1 kept) (emit o event) (λ _. pure outcome) _
            (λ x _. k'') (λ _ _. k''))

  pub commit-IsGated :
      (v : VettedAction) (s : State M)
      → Backed Says s.effects v
      → IsGated Says s kept
      → IsGated Says (commit o v s).1 kept
  unfolding commit after_run
  commit-IsGated v s b k = by_verdict (allowed v.verdict) refl
    where
      by_verdict :
          (yes_or_no : Bool)
          → allowed v.verdict ≡ yes_or_no
          → IsGated Says (commit_by o yes_or_no v s).1 kept
      by_verdict false e = report-IsGated _ _ _ s k
      by_verdict true e =
          let k' =
            run_tool-IsGated v.tool v.validated s (v.action, v.verdict, b.0, b.1, b.2, e) k in
          bind_lem (λ z. IsGated Says z.1 kept) (run_tool o v.tool v.validated) (after_run o v) s
            (λ x _. k') (λ result _. report-IsGated _ _ _ _ k')
