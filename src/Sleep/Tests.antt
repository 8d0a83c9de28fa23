-- ===== src/Sleep/Tests.antt =====
-- A sleep at concrete inputs.
use johnny.Prelude.{◌≡◌, refl, false, true, none, some, [], ◌∷◌, List}
use johnny.Prelude.Exec.{returned, raised}
use johnny.Float.{Milli}
use johnny.Drives.Engine.{Urge}
use johnny.Sleep.{SleepCollaborators, SleepCycle, sleep, sleep_trigger}
use johnny.Sleep.Wake.{Ended, sleep-Ended, sleep-wedged}

-- The backup fails and so does closing the log.
abbrev night : SleepCollaborators
night = record {
  open_log = λ calls. returned 4;
  consolidate = λ calls. returned [];
  decay = λ calls. returned (2, 1);
  refresh = λ calls. returned 9;
  review = λ calls. returned "fine";
  snapshot = λ calls. raised "disk full";
  restore_energy = λ calls. returned tt;
  verify = λ calls. returned (record { ok = true; findings = [] });
  close_log = λ calls. raised "database gone";
  now = λ calls. 60;
}

abbrev tired : SleepCycle
tired = record { asleep = false; calls = [] }

sleep-Ended_example : Ended night (sleep night "energy" 50 3 tired)
sleep-Ended_example = sleep-Ended night "energy" 50 3 tired refl

abbrev weary : List (Urge Milli)
weary = record { drive = "energy"; value = some 900; threshold = some 700; urgency = some 600 } ∷ []

sleep-wedged_example :
    let after = (sleep night "energy" 50 3 tired).1 in
    (after.asleep ≡ true) × (sleep_trigger 100 after weary 200 ≡ none)
sleep-wedged_example =
    sleep-wedged night 4 "database gone" (λ calls. refl) (λ calls. refl) "energy" 50 3 tired refl
      100 weary 200
