-- ===== src/Cycle/Scene.antt =====
-- The state of `CognitiveCycle` (brain/cycle.py), the `CycleContext` of a tick, the collaborators and
-- the record of the calls made of them. The answers of a collaborator are a function of all calls so
-- far, since each keeps a state of its own. The payloads of broadcasts are left out, and so is the
-- cancellation of the task, which each handler passes on.
use johnny.Prelude.{ℕ, String, Bool, Option, none, some, List, [], ◌∷◌, Dict, insert}
use johnny.Prelude.Exec.{Outcome, returned, raised, Exec}
use johnny.Json.{Fields}
use johnny.Workspace.{WorkspaceItem}
use johnny.Drives.Engine.{DriveEvent, DriveReading, Urge}
use johnny.Goals.Store.{Goal}
use johnny.Goals.Arbiter.{Mood}
use johnny.Effectors.Conscience.{ProposedAction}
use johnny.Effectors.Dispatch.{VettedAction, DispatchOutcome}
use johnny.Cycle.Interval.{AttentionBias}

-- `Action` of brain/agents/deliberation.py
pub record Action : Type 0 where
  pub kind : String
  pub goal_id : Option ℕ
  pub goal_source : String
  pub description : String
  pub query : String
  pub tool : Option String
  pub tool_args : Fields

pub record ActionOutcome (W : Type 0) : Type 0 where
  pub action_kind : String
  pub success : Bool
  pub summary : String
  pub drive_events : List (DriveEvent W)

pub record DeliberationResult (W : Type 0) : Type 0 where
  pub goal : Option (Goal W)
  pub action : Option Action

pub record CycleContext (W : Type 0) : Type 0 where
  pub tick : ℕ
  pub percepts : List (WorkspaceItem W)
  pub contents : List (WorkspaceItem W)
  pub thought : Option String
  pub drives : List (DriveReading W)
  pub mood : Option (Mood W)
  pub urges : List (Urge W)
  pub events : List (DriveEvent W)
  pub goal : Option (Goal W)
  pub action : Option Action
  pub vetted : Option VettedAction
  pub stage_errors : Dict String

abbrev pub new_context : {W : Type 0} → ℕ → CycleContext W
new_context tick = record {
  tick = tick;
  percepts = [];
  contents = [];
  thought = none;
  drives = [];
  mood = none;
  urges = [];
  events = [];
  goal = none;
  action = none;
  vetted = none;
  stage_errors = [];
}

pub record TickReport : Type 0 where
  pub tick : ℕ
  pub percept_count : ℕ
  pub content_count : ℕ
  pub thought : Option String
  pub stage_errors : Dict String

-- A call of a collaborator, with what it is given.
pub data Call (W : Type 0) : Type 0 where
  broadcast : (sender kind : String) → Call W
  perceived : Call W
  drives_stepped : List (DriveEvent W) → Call W
  appraised : List (WorkspaceItem W) → List (DriveReading W) → List (DriveEvent W) → Call W
  context_set : AttentionBias W → Option (Mood W) → Call W
  put_working : WorkspaceItem W → Call W
  decayed_working : Call W
  read_working : Call W
  selected : (working percepts : List (WorkspaceItem W)) → Call W
  contents_set : List (WorkspaceItem W) → Call W
  recalled : List (WorkspaceItem W) → Call W
  narrated : List (WorkspaceItem W) → Call W
  deliberated : List (Urge W) → Option (Mood W) → List (WorkspaceItem W) → Call W
  vetted : ProposedAction → List (WorkspaceItem W) → Call W
  committed : VettedAction → Call W
  acted : Action → Goal W → List (WorkspaceItem W) → Call W
  consolidated : String → Fields → Call W
  settled : Goal W → String → Bool → Call W
  learned : List (WorkspaceItem W) → Option String → Call W
  slept : (trigger : String) (degraded_ticks : ℕ) → Call W

-- What a collaborator answers or raises, by all calls up to this one.
abbrev pub Answer : Type 0 → Type 0 → Type 0
Answer W R = List (Call W) → Outcome String R

-- `WorkingMemory`; what it reads back is given as items.
pub record Working (W : Type 0) : Type 0 where
  pub put : Answer W (Unit {0})
  pub decay : Answer W (Unit {0})
  pub contents : Answer W (List (WorkspaceItem W))

-- The collaborators, each optional but the workspace. `urges` is the engine's pure function. `settle`
-- is there where the deliberation stage has `settle_tool_action`.
pub record Collaborators (W : Type 0) : Type 0 where
  pub broadcast : Answer W (Unit {0})
  pub set_contents : Answer W (Unit {0})
  pub perceive : Option (Answer W (List (WorkspaceItem W)))
  pub step_drives : Option (Answer W (List (DriveReading W)))
  pub urges : List (DriveReading W) → List (Urge W)
  pub appraise : Option (Answer W (Mood W))
  pub working : Option (Working W)
  pub select : Option (Answer W (List (WorkspaceItem W)))
  pub recall : Option (Answer W (List (WorkspaceItem W)))
  pub narrate : Option (Answer W (Option String))
  pub deliberate : Option (Answer W (DeliberationResult W))
  pub act : Answer W (ActionOutcome W)
  pub settle : Option (Answer W (List (DriveEvent W)))
  pub vet : Option (Answer W VettedAction)
  pub commit : Answer W DispatchOutcome
  pub consolidate : Option (Answer W (Option (Unit {0})))
  pub learn : Option (Answer W (Unit {0}))

-- The fields of `CognitiveCycle` that change, the context of the tick, and the calls, the latest first.
pub record Scene (W : Type 0) : Type 0 where
  pub tick : ℕ
  pub next_interval : W
  pub pending_events : List (DriveEvent W)
  pub last_urges : List (Urge W)
  pub degraded_ticks : ℕ
  pub full_agency : Bool
  pub ctx : CycleContext W
  pub calls : List (Call W)

abbrev pub Stage : Type 0 → Type 0 → Type 0
Stage W = Exec (Scene W) String

module _ {W : Type 0} where
  -- A call of a collaborator is recorded, also when it raises.
  unfoldable pub call : {R : Type 0} → Call W → Answer W R → Stage W R
  call c answer s = let calls = c ∷ s.calls in (answer calls, record s { calls = calls })

  abbrev pub modify : (Scene W → Scene W) → Stage W (Unit {0})
  modify change s = (returned tt, change s)

  abbrev pub in_context : (CycleContext W → CycleContext W) → Stage W (Unit {0})
  in_context change s = (returned tt, record s { ctx = change s.ctx })

  abbrev pub done : Stage W (Unit {0})
  done s = (returned tt, s)

  abbrev pub failed : String → String → Scene W → Scene W
  failed name error s = record s {
    ctx = record s.ctx { stage_errors = insert name error s.ctx.stage_errors };
  }

  abbrev pub caught : (String → Scene W → Scene W) → Outcome String (Unit {0}) × Scene W → Scene W
  caught handler (returned _, s) = s
  caught handler (raised e, s) = handler e s

  -- `_stage`: what the stage did before it raised stays done.
  unfoldable pub stage : String → Stage W (Unit {0}) → Scene W → Scene W
  stage name run s = caught (failed name) (run s)

  abbrev pub for_stage : Option String → String → Scene W → Scene W
  for_stage none error s = s
  for_stage (some name) error s = failed name error s

  module _ (c : Collaborators W) where
    -- `_emit`: a broadcast that fails degrades the stage that it belongs to, if any.
    unfoldable pub emit : (sender kind : String) → Option String → Stage W (Unit {0})
    unfolding call
    emit sender kind owner s =
        (returned tt, caught (for_stage owner) (call (broadcast sender kind) c.broadcast s))
