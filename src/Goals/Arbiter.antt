-- ===== src/Goals/Arbiter.antt =====
-- brain/goals/arbiter.py: which urge becomes the goal, and when it displaces the present one.
pub mod Single
pub mod Dwell
use Prim.Native.String.{◌++◌ as append_text}
use johnny.Prelude.{
  ℕ, ◌+◌, String, Bool, true, false, not, Option, none, some, List, [], ◌∷◌, if◌then◌else◌, ◌==◌,
  ltb, select, lookup, Dict,
}
use johnny.Prelude.Sort.{max_by}
use johnny.Json.{Fields, end, field, str}
use johnny.Float.{Float}
use johnny.Drives.Engine.{Urge, is_sleep_signal}
use johnny.Goals.Store.{Goal, Table, active, promote, abandon, status_active}

-- The part of brain/affect/appraisal.py's `Mood` that the arbiter reads.
pub record Mood (W : Type 0) : Type 0 where
  pub valence : W
  pub arousal : W

-- The settings of `GoalArbiter`; the dwell is in microseconds.
pub record Arbiter (W : Type 0) : Type 0 where
  pub min_dwell : ℕ
  pub margin : W
  pub arousal_weight : W

abbrev drive_intent : Dict String
drive_intent =
    ("curiosity", "explore something new and learn")
    ∷ ("boredom", "find something fresh to engage with")
    ∷ ("connection", "reconnect — reach out or reflect on the people I care about")
    ∷ ("mastery", "practise and get better at something I've struggled with")
    ∷ ("coherence", "reconcile something that doesn't add up in what I believe")
    ∷ ("continuity", "make sure I'll persist — check my memory is safe")
    ∷ []

abbrev or_address : String → Option String → String
or_address drive none = append_text "address my rising " drive
or_address drive (some intent) = intent

unfoldable pub describe : String → String
describe drive = or_address drive (lookup drive drive_intent)

abbrev pub is_actionable : {W : Type 0} → Urge W → Bool
is_actionable u = not (is_sleep_signal u)

module _ {W : Type 0} where
  abbrev abandoned_for : Goal W → Fields
  abandoned_for decision = field "abandoned_for" (str decision.source) end

  abbrev abandon_goal : Option ℕ → Fields → ℕ → Table W → Table W
  abandon_goal none outcome now table = table
  abandon_goal (some id) outcome now table = abandon id outcome now table

  unfoldable pub displace : List (Goal W) → Goal W → ℕ → Table W → Table W
  unfolding abandon
  displace [] decision now table = table
  displace (incumbent ∷ _) decision now table =
      abandon_goal incumbent.id (abandoned_for decision) now table

  abbrev first_of : List (Goal W) → Option (Goal W)
  first_of [] = none
  first_of (goal ∷ _) = some goal

  unfoldable pub settle : List (Goal W) → ℕ → Table W → Option (Goal W) → Option (Goal W) × Table W
  unfolding promote displace
  settle actives now table none = (first_of actives, table)
  settle actives now table (some decision) =
      let (goal, table') = promote decision now (displace actives decision now table) in
      (some goal, table')

module _ {W : Type 0} ⦃f : Float W⦄ (arbiter : Arbiter W) where
  abbrev arousal_of : Option (Mood W) → W
  arousal_of none = f.zero
  arousal_of (some mood) = mood.arousal

  unfoldable pub priority : Option (Mood W) → Urge W → W
  priority mood urge =
      f.mul urge.urgency (f.add f.one (f.mul arbiter.arousal_weight (arousal_of mood)))

  unfoldable pub goal_from_urge : Option (Mood W) → ℕ → Urge W → Goal W
  unfolding priority describe
  goal_from_urge mood now urge = record {
    id = none;
    source = urge.drive;
    description = describe urge.drive;
    priority = priority mood urge;
    status = status_active;
    plan = end;
    outcome = end;
    created_at = some now;
    resolved_at = none;
  }

  unfoldable pub incumbent_priority : Option (Mood W) → Goal W → List (Urge W) → W
  unfolding priority
  incumbent_priority mood incumbent [] = f.zero
  incumbent_priority mood incumbent (urge ∷ urges) =
      if urge.drive == incumbent.source
      then priority mood urge
      else incumbent_priority mood incumbent urges

  -- `held < min_dwell`, which is False for a goal with no time
  abbrev pub in_dwell : Option ℕ → ℕ → Bool
  in_dwell none reference = false
  in_dwell (some created) reference = ltb reference (created + arbiter.min_dwell)

  -- The best of the actionable urges, of which `best` stands for the first.
  unfoldable pub best_of : Option (Mood W) → Urge W → List (Urge W) → Urge W
  unfolding priority
  best_of mood first rest = max_by f.lt (priority mood) first rest

  -- `select` for an urge that won, with the time of the decision and the clock's reading after it.
  unfoldable pub challenge :
      Option (Mood W) → List (Urge W) → ℕ → ℕ → Urge W → List (Goal W) → Option (Goal W)
  unfolding goal_from_urge incumbent_priority
  challenge mood urges reference now best [] = some (goal_from_urge mood now best)
  challenge mood urges reference now best (incumbent ∷ _) =
      if in_dwell incumbent.created_at reference
      then none
      else if best.drive == incumbent.source
      then none
      else if f.lt (f.add (incumbent_priority mood incumbent urges) arbiter.margin)
          (priority mood best)
      then some (goal_from_urge mood now best)
      else none

  abbrev pub select_among :
      Option (Mood W) → List (Urge W) → ℕ → ℕ → List (Goal W) → List (Urge W) → Option (Goal W)
  select_among mood urges reference now active_goals [] = none
  select_among mood urges reference now active_goals (u ∷ us) =
      challenge mood urges reference now (best_of mood u us) active_goals

  -- `GoalArbiter.select`
  unfoldable pub select_goal :
      Option (Mood W) → List (Urge W) → ℕ → ℕ → List (Goal W) → Option (Goal W)
  unfolding challenge best_of
  select_goal mood urges reference now active_goals =
      select_among mood urges reference now active_goals (select is_actionable urges)

  -- `GoalArbiter.arbitrate`: `reference` is the time of the decision, `created` and `now` are the clock's
  -- readings for the goal and, after it, for the store.
  unfoldable pub arbitrate :
      Option (Mood W)
      → List (Urge W)
      → (reference created now : ℕ) → Table W
      → Option (Goal W) × Table W
  unfolding select_goal active settle
  arbitrate mood urges reference created now table =
      settle (active table) now table (select_goal mood urges reference created (active table))
