-- ===== src/Goals/Tests.antt =====
-- Drives, urges, goals and the arbiter on weights in thousandths.
use johnny.Prelude.{ℕ, refl, String, Option, none, some, List, [], ◌∷◌, All, select, arith}
use johnny.Json.{end}
use johnny.Float.{Milli, milli_float, Milli-IsOrdered}
use johnny.Drives.Parameters.{DriveParams, DriveConfig, drive_names}
use johnny.Drives.Engine.{DriveReading, DriveEvent, Urge, step, is_sleep_signal}
use johnny.Drives.Engine.Bounds.{Configured, Stepped, step-Stepped}
use johnny.Goals.Store.{GoalRow, Table, status_active, row_to_goal}
use johnny.Goals.Store.Rows.{IsSingle}
use johnny.Goals.Arbiter.{Mood, Arbiter, select_goal, is_actionable, priority}
use johnny.Goals.Arbiter.Single.{
  Move, arbitrated, planned_goal, resolved_goal, perform_all, perform_all-IsSingle,
}
use johnny.Goals.Arbiter.Dwell.{Decided, IsRanked, select_goal-Decided}

abbrev params : DriveParams Milli
params = record {
  setpoint = some 200;
  accrual_rate = some 10;
  decay_rate = some 5;
  threshold = some 700;
}

abbrev config : DriveConfig Milli
config = record {
  drives =
      ("curiosity", params)
      ∷ ("boredom", params)
      ∷ ("connection", params)
      ∷ ("mastery", params)
      ∷ ("coherence", params)
      ∷ ("energy", params)
      ∷ ("continuity", params)
      ∷ [];
  satisfaction = ("interaction", ("connection", some 300) ∷ []) ∷ [];
}

abbrev halved : Milli → Milli → Milli
halved rate seconds = some 500

abbrev in_seconds : ℕ → Milli
in_seconds t = some t

abbrev an_event : DriveEvent Milli
an_event = record { kind = "interaction"; intensity = some 1000 }

config-Configured : Configured drive_names config
config-Configured = ground arith

step-Stepped_example : Stepped 9 drive_names (step halved in_seconds config (an_event ∷ []) 9 [])
step-Stepped_example =
    step-Stepped Milli-IsOrdered halved in_seconds config (an_event ∷ []) 9 [] config-Configured

abbrev reading : String → ℕ → DriveReading Milli
reading drive value = record {
  drive = drive;
  value = some value;
  setpoint = some 200;
  accrual_rate = some 10;
  decay_rate = some 5;
  threshold = some 500;
  updated_at = 0;
}

abbrev three_readings : List (DriveReading Milli)
three_readings = reading "curiosity" 600 ∷ reading "mastery" 300 ∷ reading "connection" 900 ∷ []

abbrev urge : String → ℕ → Urge Milli
urge drive urgency = record {
  drive = drive;
  value = some 900;
  threshold = some 500;
  urgency = some urgency;
}

abbrev two_urges : List (Urge Milli)
two_urges = urge "energy" 900 ∷ urge "connection" 800 ∷ urge "curiosity" 300 ∷ []

abbrev arbiter : Arbiter Milli
arbiter = record { min_dwell = 60; margin = some 100; arousal_weight = some 500 }

abbrev calm : Option (Mood Milli)
calm = some (record { valence = some 0; arousal = some 200 })

-- One goal of curiosity has been active since time 10.
abbrev curious : GoalRow Milli
curious = record {
  id = 1;
  source = "curiosity";
  description = "explore something new and learn";
  priority = some 300;
  status = status_active;
  plan = end;
  outcome = end;
  created_at = 10;
  resolved_at = none;
}

abbrev one_goal : Table Milli
one_goal = record { next_id = 2; rows = curious ∷ [] }

one_goal-IsSingle : IsSingle one_goal
one_goal-IsSingle = record { distinct = (tt, tt); fresh = omega arith; single = omega arith }

abbrev a_run : List (Move Milli)
a_run =
    arbitrated arbiter calm two_urges 100 101 102
    ∷ planned_goal 2 end
    ∷ resolved_goal 2 end 110
    ∷ arbitrated arbiter calm two_urges 120 121 122
    ∷ []

perform_all-IsSingle_example : IsSingle (perform_all a_run one_goal)
perform_all-IsSingle_example = perform_all-IsSingle a_run one_goal one_goal-IsSingle

two_urges-IsRanked : All (IsRanked arbiter calm) (select is_actionable two_urges)
unfolding is_sleep_signal priority
two_urges-IsRanked = (refl, (refl, tt))

select_goal-Decided_example :
    Decided arbiter calm two_urges 100
      (row_to_goal curious ∷ [])
      (select_goal arbiter calm two_urges 100 101 (row_to_goal curious ∷ []))
select_goal-Decided_example =
    select_goal-Decided arbiter calm Milli-IsOrdered two_urges 100 101 (row_to_goal curious ∷ [])
      two_urges-IsRanked
