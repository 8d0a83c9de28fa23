-- ===== src/Cycle/Gate/Turns.antt =====
-- How many turns the run loop gets from the gate.
use johnny.Prelude.{◌≡◌, refl, Bool, true, false, Option, none, some, List, [], ◌∷◌}
use johnny.Cycle.Gate.{CycleGate, new_gate, pause, resume, step, wait_turn}

-- What the cockpit and the loop do with the gate; `waited` is one try of the loop to go on.
pub data GateUse : Type 0 where
  paused resumed stepped waited : GateUse

abbrev passed : Option CycleGate → CycleGate → CycleGate
passed none gate = gate
passed (some gate') gate = gate'

unfoldable pub use_gate : GateUse → CycleGate → CycleGate
unfolding pause resume step wait_turn
use_gate paused gate = pause gate
use_gate resumed gate = resume gate
use_gate stepped gate = step gate
use_gate waited gate = passed (wait_turn gate) gate

abbrev is_turn : Option CycleGate → Bool
is_turn none = false
is_turn (some gate) = true

-- Whether each try of the loop succeeds.
unfoldable pub turns : List GateUse → CycleGate → List Bool
unfolding use_gate wait_turn
turns [] gate = []
turns (waited ∷ us) gate = is_turn (wait_turn gate) ∷ turns us (use_gate waited gate)
turns (paused ∷ us) gate = turns us (use_gate paused gate)
turns (resumed ∷ us) gate = turns us (use_gate resumed gate)
turns (stepped ∷ us) gate = turns us (use_gate stepped gate)

-- The specification: the loop runs, is held, or may take a single turn.
pub data Mode : Type 0 where
  running held single : Mode

abbrev pub next_mode : GateUse → Mode → Mode
next_mode paused mode = held
next_mode resumed mode = running
next_mode stepped mode = single
next_mode waited running = running
next_mode waited held = held
next_mode waited single = held

abbrev pub may_go : Mode → Bool
may_go running = true
may_go held = false
may_go single = true

abbrev pub allowed_turns : List GateUse → Mode → List Bool
allowed_turns [] mode = []
allowed_turns (waited ∷ us) mode = may_go mode ∷ allowed_turns us (next_mode waited mode)
allowed_turns (paused ∷ us) mode = allowed_turns us held
allowed_turns (resumed ∷ us) mode = allowed_turns us running
allowed_turns (stepped ∷ us) mode = allowed_turns us single

abbrev gate_of : Mode → CycleGate
gate_of running = record { is_paused = false; step_once = false; proceed = true }
gate_of held = record { is_paused = true; step_once = false; proceed = false }
gate_of single = record { is_paused = true; step_once = true; proceed = true }

turns_of : (us : List GateUse) (mode : Mode) → turns us (gate_of mode) ≡ allowed_turns us mode
unfolding turns use_gate pause resume step wait_turn
turns_of [] mode = refl
turns_of (waited ∷ us) running = rw (turns_of us running) refl
turns_of (waited ∷ us) held = rw (turns_of us held) refl
turns_of (waited ∷ us) single = rw (turns_of us held) refl
turns_of (paused ∷ us) mode = turns_of us held
turns_of (resumed ∷ us) mode = turns_of us running
turns_of (stepped ∷ us) mode = turns_of us single

-- From a new gate on, whatever is done with it, with nothing between the end of a wait and its test,
-- each try of the loop succeeds exactly when the loop runs or has a single step left: a step lets one
-- try through and holds the next, and a pause holds each until a step or a resume.
pub turns-allowed_turns : (us : List GateUse) → turns us new_gate ≡ allowed_turns us running
turns-allowed_turns us = turns_of us running
