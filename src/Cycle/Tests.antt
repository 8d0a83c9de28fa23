-- ===== src/Cycle/Tests.antt =====
-- The cycle, its gate and its interval, and the queue of inputs, at concrete inputs.
use johnny.Prelude.{arith, ◌≡◌, ◌≤◌, refl, true, false, Option, none, some, List, [], ◌∷◌, select}
use johnny.Prelude.Exec.{returned, raised}
use johnny.Float.{Milli, milli_float}
use johnny.Json.{end}
use johnny.Workspace.{WorkspaceItem}
use johnny.Goals.Arbiter.{Mood}
use johnny.Cycle.Gate.{new_gate}
use johnny.Cycle.Gate.Turns.{
  GateUse, paused, resumed, stepped, waited, turns, running, allowed_turns, turns-allowed_turns,
}
use johnny.Cycle.Interval.{Tempo}
use johnny.Cycle.Scene.{Collaborators, Scene, new_context}
use johnny.Cycle.Tick.{tick, Sleep, maybe_sleep}
use johnny.Cycle.Tick.Calm.{is_autonomous, Fits}
use johnny.Cycle.Tick.Bounded.{tick-Fits}
use johnny.Cycle.Tick.Agency.{tick-suspended, agency_after, maybe_sleep-Rewoken}
use johnny.Sensorium.{RawInput}
use johnny.Sensorium.Fifo.{QueueMove, pushed, drained}

abbrev an_input : RawInput
an_input = record { raw = "hi"; source = "dan"; modality = "text" }

abbrev some_moves : List QueueMove
some_moves = pushed an_input ∷ drained ∷ pushed an_input ∷ []

abbrev cockpit : List GateUse
cockpit = waited ∷ paused ∷ waited ∷ stepped ∷ waited ∷ waited ∷ resumed ∷ waited ∷ []

turns-allowed_turns_example : turns cockpit new_gate ≡ allowed_turns cockpit running
turns-allowed_turns_example = turns-allowed_turns cockpit

abbrev tempo : Tempo Milli
tempo = record {
  interval = some 4000;
  min_interval = some 1500;
  max_interval = some 12000;
  arousal_speedup = some 1000;
  tired_slowdown = some 1500;
  attention_drive_weight = some 500;
  default_arousal = some 300;
  drive_kind_relevance = ("connection", "input" ∷ []) ∷ [];
}

abbrev excited : Option (Mood Milli)
excited = some (record { valence = some 0; arousal = some 9000 })

-- All collaborators are there, the thoughts fail, and the deliberation would act if it were asked.
abbrev crew : Collaborators Milli
crew = record {
  broadcast = λ calls. returned tt;
  set_contents = λ calls. returned tt;
  perceive = some (λ calls. returned []);
  step_drives = some (λ calls. returned []);
  urges = λ readings. [];
  appraise = some (λ calls. returned (record { valence = some 0; arousal = some 100 }));
  working = none;
  select = none;
  recall = none;
  narrate = some (λ calls. raised "tired");
  deliberate = some (λ calls. returned (record { goal = none; action = none }));
  act = λ calls. raised "no action";
  settle = none;
  vet = none;
  commit = λ calls. raised "no dispatch";
  consolidate = none;
  learn = none;
}

abbrev degraded : Scene Milli
degraded = record {
  tick = 7;
  next_interval = some 4000;
  pending_events = [];
  last_urges = [];
  degraded_ticks = 0;
  full_agency = false;
  ctx = new_context 7;
  calls = [];
}

tick-suspended_example :
    let t = (tick crew tempo 7 degraded).1 in
    (select is_autonomous t.calls ≡ []) × (t.full_agency ≡ false)
tick-suspended_example = tick-suspended crew tempo 7 degraded refl

abbrev restoring : Sleep Milli
restoring = record {
  trigger = λ urges tick. some "cadence";
  run = λ calls. returned (some (record { self_check_ok = true }));
}

maybe_sleep-Rewoken_example :
    (maybe_sleep crew tempo 7 (some restoring) degraded).1.full_agency
    ≡ agency_after crew tempo 7 restoring degraded (some "cadence")
maybe_sleep-Rewoken_example = maybe_sleep-Rewoken crew tempo 7 restoring degraded

-- Attention selects three items where two fit.
abbrev remark : WorkspaceItem Milli
remark = record {
  id = "r";
  kind = "input";
  content = "hi";
  salience = some 500;
  source = "dan";
  metadata = end;
}

abbrev eager : Collaborators Milli
eager = record crew {
  select = some (λ calls. returned (remark ∷ remark ∷ remark ∷ []));
  recall = some (λ calls. returned (remark ∷ []));
}

abbrev aware : Scene Milli
aware = record degraded { full_agency = true }

tick-Fits_example :
    Fits 2 (tick eager tempo 2 aware).1 × ((tick eager tempo 2 aware).0.content_count ≤ 2)
tick-Fits_example = tick-Fits eager tempo 2 aware (omega arith, tt)
