-- ===== src/Effectors/Dispatch/Audit.antt =====
-- What a commit leaves in the audit log and on the bus.
use mathlib.Core.Path.{subst}
use johnny.Prelude.{
  ℕ, ◌+◌, String, ◌≡◌, refl, Bool, true, false, Option, none, some, List, [], ◌∷◌, arith, count,
  if◌then◌else◌,
}
use johnny.Prelude.Exec.{Outcome, returned, raised, pure, ◌>>=◌, ◌>>◌}
use johnny.Workspace.{WorkspaceEvent}
use johnny.Effectors.Tools.{ToolResult}
use johnny.Effectors.Conscience.{allowed}
use johnny.Effectors.Dispatch.{
  Failure, tool_failed, AuditRow, Effect, ran, audited, emitted, DispatchOutcome, VettedAction,
  Outside, State, record_row, emit, run_tool, report, after_run, commit_by, commit, sent, recorded,
  ended, veto_summary,
}

abbrev is_run : Effect → Bool
is_run (ran tool args) = true
is_run _ = false

abbrev is_row : Effect → Bool
is_row (audited row) = true
is_row _ = false

abbrev is_event : Effect → Bool
is_event (emitted event) = true
is_event _ = false

abbrev pub runs : List Effect → ℕ
runs = count is_run

abbrev pub rows : List Effect → ℕ
rows = count is_row

abbrev pub events : List Effect → ℕ
events = count is_event

-- The row tells of the action, of the verdict and of the outcome: its result and its success.
abbrev pub succeeded : Option ToolResult → Bool
succeeded none = false
succeeded (some result) = result.success

abbrev pub Tells : VettedAction → DispatchOutcome → AuditRow → Type 0
Tells v out row =
    (row.tool ≡ v.action.tool)
    × (row.args ≡ v.action.args)
    × (row.goal_id ≡ v.action.goal_id)
    × (row.conscience_verdict ≡ v.verdict.verdict)
    × (row.result ≡ out.result)
    × (row.success ≡ succeeded out.result)

-- What a commit returns is what the tool returned, if the verdict let it run.
abbrev pub Results :
    {M : Type 0} → Outside → VettedAction → State M → Bool → DispatchOutcome → Type 0
Results o v s false out = (out.result ≡ none) × (out.summary ≡ veto_summary v.verdict.reason)
Results o v s true out =
    (result : ToolResult) × (o.run s.effects v.tool v.validated ≡ returned result)
    × (out.result ≡ some result)
    × (out.summary ≡ result.summary)

abbrev pub LatestRow : (AuditRow → Type 0) → List Effect → Type 0
LatestRow P [] = ⊥
LatestRow P (audited row ∷ es) = P row
LatestRow P (_ ∷ es) = LatestRow P es

-- What a commit that returns `out` has done since `s`, for a verdict that allowed it or not.
abbrev pub Committed :
    {M : Type 0}
    → Outside
    → VettedAction
    → State M
    → Bool
    → Outcome Failure DispatchOutcome × State M
    → Type 0
Committed o v s ok_by (raised x, t) = Unit
Committed o v s ok_by (returned out, t) =
    (out.ran ≡ ok_by)
    × (out.verdict ≡ v.verdict)
    × (runs t.effects ≡ runs s.effects + (if ok_by then 1 else 0))
    × (rows t.effects ≡ rows s.effects + 1)
    × (events t.effects ≡ events s.effects + 1)
    × LatestRow (Tells v out) t.effects
    × Results o v s ok_by out

module _ {M : Type 0} (o : Outside) where
  report_cases :
      (P : Outcome Failure DispatchOutcome × State M → Type 0) (row : AuditRow)
      (event : WorkspaceEvent) (outcome : DispatchOutcome) (s : State M)
      → ((x : Failure) (t : State M) → P (raised x, t))
      → P (returned outcome, record s { effects = emitted event ∷ audited row ∷ s.effects })
      → P (report o row event outcome s)
  unfolding report record_row emit
  report_cases P row event outcome s px pr = by_audit (o.audit_error s.effects row)
    where
      u : State M
      u = record s { effects = audited row ∷ s.effects }

      by_bus : (e : Option String) → P ((sent o event e >> pure outcome) u)
      by_bus none = pr
      by_bus (some e) = px _ _

      by_audit : (e : Option String) → P ((recorded o row e >> (emit o event >> pure outcome)) s)
      by_audit none = by_bus (o.broadcast_error u.effects event)
      by_audit (some e) = px _ _

  commit_by-Committed :
      (ok_by : Bool) (v : VettedAction) (s : State M)
      → Committed o v s ok_by (commit_by o ok_by v s)
  unfolding commit_by after_run run_tool
  commit_by-Committed false v s =
      report_cases (Committed o v s false) _ _ _ s (λ x t. tt)
        (
          refl,
          refl,
          omega arith,
          omega arith,
          omega arith,
          (refl, refl, refl, refl, refl, refl),
          (refl, refl),
        )
  commit_by-Committed true v s = by_result (o.run s.effects v.tool v.validated) refl
    where
      u : State M
      u = record s { effects = ran v.tool v.validated ∷ s.effects }

      by_result :
          (r : Outcome String ToolResult)
          → o.run s.effects v.tool v.validated ≡ r
          → Committed o v s true ((ended o r >>= after_run o v) u)
      by_result (raised e) k = tt
      by_result (returned result) k =
          report_cases (Committed o v s true) _ _ _ u (λ x t. tt)
            (
              refl,
              refl,
              omega arith,
              omega arith,
              omega arith,
              (refl, refl, refl, refl, refl, refl),
              (result, k, refl, refl),
            )

  -- A commit that returns has run the tool once if the verdict allowed it and not at all otherwise,
  -- says so and returns what the tool returned, or no result after a veto. It has added exactly one
  -- audit row, which carries the action, the verdict, and the result and its success, and has put
  -- exactly one event on the bus.
  pub commit_effects :
      (v : VettedAction) (s t : State M) (out : DispatchOutcome)
      → commit o v s ≡ (returned out, t)
      → (out.ran ≡ allowed v.verdict)
        × (out.verdict ≡ v.verdict)
        × (runs t.effects ≡ runs s.effects + (if allowed v.verdict then 1 else 0))
        × (rows t.effects ≡ rows s.effects + 1)
        × (events t.effects ≡ events s.effects + 1)
        × LatestRow (Tells v out) t.effects
        × Results o v s (allowed v.verdict) out
  unfolding commit
  commit_effects v s t out e =
      subst (Committed o v s (allowed v.verdict)) e (commit_by-Committed (allowed v.verdict) v s)

  -- A tool that raises leaves `commit` by that exception: the tool has run, and there is no audit row
  -- and no event.
  pub commit_tool_raises :
      (v : VettedAction) (s : State M) (e : String)
      → allowed v.verdict ≡ true
      → o.run s.effects v.tool v.validated ≡ raised e
      → ((commit o v s).0 ≡ raised (tool_failed e))
        × (runs (commit o v s).1.effects ≡ runs s.effects + 1)
        × (rows (commit o v s).1.effects ≡ rows s.effects)
        × (events (commit o v s).1.effects ≡ events s.effects)
  unfolding commit after_run report run_tool
  commit_tool_raises v s e a r = ground arith
