-- ===== src/Affect/Tests.antt =====
-- Affect at concrete inputs, with weights in thousandths.
use johnny.Prelude.{arith, refl, ◌≡◌, ◌*◌, false, none, some, List, [], ◌∷◌, String}
use johnny.Prelude.Exec.{returned, raised}
use johnny.Json.{end}
use johnny.Float.{Milli, milli_float, Milli-IsOrdered}
use johnny.Workspace.{WorkspaceItem}
use johnny.Drives.Engine.{DriveReading, DriveEvent}
use johnny.Llm.Router.{Reply, Outside, Config, new_breakers}
use johnny.Affect.Rules.{derive_appraisal}
use johnny.Affect.Agent.{Affect, Routed, Feeling, appraise_tick, appraise}
use johnny.Llm.Router.Counts.{NoCrash}
use johnny.Llm.Router.Errors.{new_breakers-HasBreakers}
use johnny.Llm.Router.{validate_routing, unknown_provider}
use johnny.Llm.Routing.{chain_for}
use johnny.Affect.Appraisal.{Appraisal}
use johnny.Affect.Agent.Felt.{IsFelt, appraise_tick-IsFelt}
use johnny.Affect.Agent.Idle.{appraise_tick-idle}
use johnny.Affect.Agent.Judged.{Judged, appraise-Judged}

abbrev slow : Outside
slow = record {
  reply = λ h call. Reply.timed_out "slow";
  time = λ h. 100;
  timer_ms = λ h. 7;
  name = λ key. key;
  is_exhausted = λ h. returned false;
}

abbrev one_provider : Config
one_provider = record {
  providers = "ollama" ∷ [];
  roles = ("default", record { provider = "ollama"; model = "gemma" } ∷ []) ∷ [];
  schema_retries = 1;
  has_budget_gate = false;
}

abbrev routed : Routed
routed = record { outside = slow; config = one_provider }

abbrev affect : Affect Milli
affect = record {
  numbers = record { lit = λ n. some (10 * n); half_to = λ x. some 500 };
  router = some routed;
  prompt = "feel";
  max_tokens = 100;
  halflife = some 1000;
  responsiveness = some 500;
  persist_min_change = some 50;
  parse = λ s. raised "no JSON";
  seconds = λ n. some n;
  latest_error = λ t. none;
  add_error = λ t. none;
}

abbrev rested : Feeling Milli
rested = record {
  current = none;
  mood = record {
    next_id = 4;
    rows =
        record {
          id = 3;
          ts = 9;
          valence = some 200;
          arousal = some 300;
          emotions = ("joy", some 400) ∷ [];
        }
        ∷ [];
  };
  router = record { breakers = new_breakers ("ollama" ∷ []) 3 60; history = [] };
}

abbrev item_of : String → WorkspaceItem Milli
item_of kind = record {
  id = "a";
  kind = kind;
  content = "hello";
  salience = some 500;
  source = "dan";
  metadata = end;
}

abbrev lonely_drive : DriveReading Milli
lonely_drive = record {
  drive = "connection";
  value = some 900;
  setpoint = some 200;
  accrual_rate = some 10;
  decay_rate = some 5;
  threshold = some 500;
  updated_at = 3;
}

abbrev successes : List (DriveEvent Milli)
successes = record { kind = "success"; intensity = some 1000 } ∷ []

appraise_tick-IsFelt_example :
    IsFelt affect
      (appraise_tick affect (item_of "input" ∷ []) (lonely_drive ∷ []) successes 12 rested)
appraise_tick-IsFelt_example =
    appraise_tick-IsFelt affect Milli-IsOrdered (item_of "input" ∷ []) (lonely_drive ∷ []) successes
      12 rested ((refl, tt), tt)

appraise_tick-idle_example :
    (appraise_tick affect (item_of "memory" ∷ []) (lonely_drive ∷ []) successes 12 rested).1.router
    ≡ rested.router
appraise_tick-idle_example =
    appraise_tick-idle affect (item_of "memory" ∷ []) (lonely_drive ∷ []) successes 12 rested
      (refl, tt)

slow-NoCrash : NoCrash slow
slow-NoCrash h call e = ground (arith, e)

appraise-Judged_example :
    (x : Appraisal Milli) × ((appraise affect
        (item_of "input" ∷ [])
        (lonely_drive ∷ [])
        successes
        rested).0
      ≡ returned x)
    × Judged affect routed rested
        (derive_appraisal affect.numbers (item_of "input" ∷ []) (lonely_drive ∷ []) successes)
        (some "hello")
        x
unfolding chain_for validate_routing unknown_provider
appraise-Judged_example =
    appraise-Judged affect routed (item_of "input" ∷ []) (lonely_drive ∷ []) successes
      (record { provider = "ollama"; model = "gemma" } ∷ []) rested refl slow-NoCrash
      (λ h x e. cc e) refl refl (new_breakers-HasBreakers ("ollama" ∷ []) 3 60)
