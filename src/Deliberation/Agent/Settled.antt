-- ===== src/Deliberation/Agent/Settled.antt =====
-- How an action ends: its goal is resolved with the outcome, and the drive is eased.
use mathlib.Core.Path.{ap₂}
use Prim.Native.String.append
use Prim.Native.String.compare
use Prim.Native.String.{◌++◌ as append_text, compare}
use Prim.Native.Nat.{gt}
use johnny.Prelude.{
  ℕ, suc, ◌≡◌, refl, ap, String, true, false, Option, none, some, List, [], ◌∷◌, ◌==◌, Bool-cases,
  inl, inr,
}
use johnny.Prelude.Exec.{Outcome, returned, raised, ◌>>=◌, ◌>>◌, pure}
use johnny.Workspace.{WorkspaceItem}
use johnny.Float.{Float}
use johnny.Goals.Store.{Goal, resolve}
use johnny.Llm.{Completion, LlmError, unavailable, unavailable_by}
use johnny.Llm.Router.Errors.{IsTired}
use johnny.Cycle.Scene.{Action, ActionOutcome}
use johnny.Deliberation.Plan.{satisfaction_events}
use johnny.Prelude.Texts.{strip}
use johnny.Deliberation.Agent.{
  Mind, Routed, Deliberation, ask, thought_of, think_by, think, recall, consolidate, takeaway,
  reflect, execute, remember, conclude, resolve_goal, act, act_outcome, outcome_of, text_or,
  episode_of, recall_summary,
}
use johnny.Deliberation.Agent.Code.{Usable, ask-IsTired}

module _ {W : Type 0} ⦃f : Float W⦄ (d : Deliberation W) where
  -- What running an action leaves alone.
  abbrev Same : Mind W → Mind W → Type 0
  Same s t =
      (t.last_acted ≡ s.last_acted)
      × (t.readings ≡ s.readings)
      × (t.goals ≡ s.goals)
      × (t.written ≡ s.written)

  abbrev pub IsFull : String → Type 0
  IsFull t = (t == "") ≡ false

  text_or-IsFull : (t fallback : String) → IsFull fallback → IsFull (text_or t fallback)
  text_or-IsFull t fallback h = elim (Bool-cases (t == "")) [ inl e ↦ rw e h | inr e ↦ rw e e ]

  append-IsFull : (s t : String) → IsFull s → IsFull (append_text s t)
  append-IsFull String.[] t h = cc h
  append-IsFull (String.◌∷◌ c s) t h =
      let step : append_text (String.◌∷◌ c s) t ≡ String.◌∷◌ c (append_text s t) =
        λ i. append.cons c s t i in
      let last : compare (String.◌∷◌ c (append_text s t)) "" ≡ gt =
        λ i. compare.cons-nil c (append_text s t) i in
      rw step (rw last refl)

  -- It yields a summary that is not empty.
  abbrev Yields : Mind W → Outcome LlmError String × Mind W → Type 0
  Yields s (returned summary, after) = Same s after × IsFull summary
  Yields s (raised e, after) = ⊥

  thought-Yields :
      (fallback : String) (s after : Mind W) (out : Outcome LlmError Completion)
      → IsTired out
      → Same s after
      → IsFull fallback
      → Yields s (thought_of d fallback out, after)
  thought-Yields fallback s after (returned done) t same full =
      (same, text_or-IsFull (strip done.content) fallback full)
  thought-Yields fallback s after (raised (unavailable role)) t same full = (same, full)
  thought-Yields fallback s after (raised (unavailable_by role cause)) t same full = (same, full)
  thought-Yields fallback s after (raised x) t same full = t

  think-Yields :
      (router : Option Routed) (instruction fallback : String) (s : Mind W)
      → Usable router s.router
      → IsFull fallback
      → Yields s (think_by d router instruction fallback s)
  unfolding ask
  think-Yields none instruction fallback s u full = ((refl, refl, refl, refl), full)
  think-Yields (some r) instruction fallback s u full =
      let (out, after) = ask d r d.max_tokens instruction s in
      thought-Yields fallback s after out (ask-IsTired d r d.max_tokens instruction s u)
        (refl, refl, refl, refl) full

  -- The action succeeded, with the events of its goal; the goal is resolved with the outcome at the
  -- clock's reading after the one of the action, and one episode tells of it.
  abbrev pub Settled :
      ℕ → Action → Goal W → Mind W → Outcome LlmError (ActionOutcome W) × Mind W → Type 0
  Settled id action goal s (returned outcome, after) =
      (outcome.action_kind ≡ action.kind)
      × (outcome.success ≡ true)
      × IsFull outcome.summary
      × (outcome.drive_events ≡ satisfaction_events d.intensities goal)
      × (after.goals
          ≡ resolve id (act_outcome d action outcome.summary outcome.drive_events)
              (d.clock (suc s.readings)) s.goals)
      × (after.written ≡ episode_of d outcome.summary ∷ s.written)
  Settled id action goal s (raised e, after) = ⊥

  concluded :
      (id : ℕ) (action : Action) (goal : Goal W) (s : Mind W) (summary : String) (after : Mind W)
      (out : Outcome LlmError (Unit {0})) (goal_id : Option ℕ)
      → out ≡ returned tt
      → goal_id ≡ some id
      → Same (record s { readings = suc s.readings; last_acted = some (d.clock s.readings) }) after
      → IsFull summary
      → let events = satisfaction_events d.intensities goal in
        Settled id action goal s (
          ((λ (_ : Mind W). (out, record after { written = episode_of d summary ∷ after.written }))
              >> resolve_goal d goal_id (act_outcome d action summary events)
              >> pure (outcome_of d action goal summary))
            s)
  concluded id action goal s summary after out goal_id ok named h full = rw ok (
      rw named (
        refl,
        refl,
        full,
        refl,
        ap₂
            (λ r goals.
              resolve id (act_outcome d action summary (satisfaction_events d.intensities goal))
                (d.clock r) goals)
            h.1 h.2,
        ap (λ es. episode_of d summary ∷ es) h.3,
      ))

  module _
      (recalls : (m : Mind W) → (episodes : List String) × (d.recall m ≡ returned episodes)) where
    execute-Yields :
        (action : Action) (contents : List (WorkspaceItem W)) (s : Mind W)
        → Usable d.router s.router
        → Yields s (execute d action contents s)
    unfolding execute recall consolidate reflect think
    execute-Yields action contents s u =
        let asked = λ (query : String). record s { recalled = (query, d.recall_k) ∷ s.recalled } in
        let gone = recalls (asked action.query) in
        let over = recalls (asked (text_or action.query action.description)) in
        elim (Bool-cases (action.kind == "recall")) [
          | inl e ↦ rw e (rw gone.1 ((refl, refl, refl, refl), recalled gone.0 action.query))
          | inr e ↦ rw e (elim (Bool-cases (action.kind == "consolidate")) [
            | inl k ↦
                rw k (rw over.1 (taken over.0 (asked (text_or action.query action.description)) u))
            | inr k ↦ rw k (elim (Bool-cases (action.kind == "formulate_question")) [
              | inl q ↦ rw q (think-Yields d.router _ _ s u refl)
              | inr q ↦ rw q (think-Yields d.router _ _ s u (append-IsFull _ _ refl))
            ])
          ])
        ]
      where
        taken :
            (episodes : List String) (m : Mind W)
            → Usable d.router m.router
            → Yields m (takeaway d episodes m)
        taken [] m v = ((refl, refl, refl, refl), refl)
        taken (e ∷ es) m v = think-Yields d.router _ _ m v refl

        recalled :
            (episodes : List String) (query : String) → IsFull (recall_summary d query episodes)
        recalled [] query = append-IsFull _ _ refl
        recalled (e ∷ es) query = append-IsFull _ _ refl

    -- Where recalling and writing episodes do not fail and the model can be asked, an internal action
    -- always succeeds with a summary that is not empty: it returns the events that ease its drive, resolves its goal with them, and
    -- writes one episode with that summary.
    pub act-Settled :
        ((m : Mind W) → d.write m ≡ returned tt)
        → (id : ℕ) (action : Action) (goal : Goal W) (contents : List (WorkspaceItem W))
          (s : Mind W)
        → goal.id ≡ some id
        → Usable d.router s.router
        → Settled id action goal s (act d action goal contents s)
    unfolding act remember
    act-Settled writes id action goal contents s named u =
        let now = record s { readings = suc s.readings; last_acted = some (d.clock s.readings) } in
        at (execute d action contents now) (execute-Yields action contents now u)
      where
        at :
            (out : Outcome LlmError String × Mind W)
            → Yields
                (record s { readings = suc s.readings; last_acted = some (d.clock s.readings) })
                out
            → Settled id action goal s (((λ (_ : Mind W). out) >>= conclude d action goal) s)
        at (raised e, after) h = h
        at (returned summary, after) h =
            concluded id action goal s summary after
              (d.write (record after { written = episode_of d summary ∷ after.written })) goal.id
              (writes (record after { written = episode_of d summary ∷ after.written })) named h.0
              h.1
