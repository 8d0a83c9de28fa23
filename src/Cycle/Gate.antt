-- ===== src/Cycle/Gate.antt =====
-- `CycleGate` of brain/cycle.py: pause, resume and single steps of the run loop. A loop that waits on
-- the event wakes up and tests the flags in one step here; a call of the cockpit between the two is
-- not modelled.
pub mod Turns
use johnny.Prelude.{Bool, true, false, Option, none, some, if◌then◌else◌, ◌&&◌}

-- `proceed` is whether the event is set; it is made set, on the first use.
pub record CycleGate : Type 0 where
  pub is_paused : Bool
  pub step_once : Bool
  pub proceed : Bool

abbrev pub new_gate : CycleGate
new_gate = record { is_paused = false; step_once = false; proceed = true }

unfoldable pub pause : CycleGate → CycleGate
pause gate = record { is_paused = true; step_once = false; proceed = false }

unfoldable pub resume : CycleGate → CycleGate
resume gate = record { is_paused = false; step_once = false; proceed = true }

unfoldable pub step : CycleGate → CycleGate
step gate = record { is_paused = true; step_once = true; proceed = true }

-- `none` while the event is not set: the loop waits on.
unfoldable pub wait_turn : CycleGate → Option CycleGate
wait_turn gate =
    if gate.proceed
    then some (
        if gate.is_paused && gate.step_once
        then record gate { step_once = false; proceed = false }
        else gate)
    else none
