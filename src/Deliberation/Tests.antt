-- ===== src/Deliberation/Tests.antt =====
-- A deliberation with a slow model, at concrete inputs.
use johnny.Prelude.{arith, ◌*◌, refl, true, false, none, some, List, [], ◌∷◌}
use johnny.Prelude.Exec.{returned}
use johnny.Json.{end}
use johnny.Float.{Milli, milli_float}
use johnny.Drives.Engine.{Urge}
use johnny.Goals.Store.{Goal}
use johnny.Goals.Arbiter.{arbitrate}
use johnny.Llm.Routing.{ModelStep, chain_for}
use johnny.Llm.Router.{Reply, Outside, Config, new_breakers, validate_routing, unknown_provider}
use johnny.Llm.Router.Counts.{NoCrash}
use johnny.Llm.Router.Errors.{new_breakers-HasBreakers}
use johnny.Deliberation.Plan.{default_tool_actions, internal_action}
use johnny.Deliberation.Agent.{Mind, Deliberation, deliberate, act, settle_tool_action}
use johnny.Deliberation.Agent.Cadence.{Resting, acted-Resting}
use johnny.Deliberation.Agent.Code.{Usable, Planned, deliberate-Planned}
use johnny.Deliberation.Agent.Settled.{Settled, act-Settled}

abbrev one_step : List ModelStep
one_step = record { provider = "ollama"; model = "llama3" } ∷ []

abbrev slow : Outside
slow = record {
  reply = λ h call. Reply.timed_out "slow";
  time = λ h. 100;
  timer_ms = λ h. 7;
  name = λ key. key;
  is_exhausted = λ h. returned false;
}

abbrev one_provider : Config
one_provider = record {
  providers = "ollama" ∷ [];
  roles = ("default", one_step) ∷ [];
  schema_retries = 1;
  has_budget_gate = true;
}

-- It acts once a minute at most, and its clock moves on by ten seconds.
abbrev thinker : Deliberation Milli
thinker = record {
  router = some (record { outside = slow; config = one_provider });
  arbiter = record { min_dwell = 0; margin = some 100; arousal_weight = some 500 };
  tool_actions = default_tool_actions;
  prompt = "";
  max_tokens = 200;
  recall_k = 3;
  min_interval = 60000000;
  code_max_tokens = 400;
  code_max_chars = 4000;
  intensities = record {
    full = some 1000;
    connection = some 300;
    mastery = some 800;
    continuity = some 400;
  };
  episode_salience = some 550;
  clock = λ n. 10000000 * n;
  show = λ s. s;
  recall = λ m. returned [];
  write = λ m. returned tt;
}

abbrev a_goal : Goal Milli
a_goal = record {
  id = some 1;
  source = "mastery";
  description = "practise";
  priority = some 500;
  status = "active";
  plan = end;
  outcome = end;
  created_at = some 0;
  resolved_at = none;
}

abbrev mind : Mind Milli
mind = record {
  last_acted = none;
  readings = 0;
  goals = record { next_id = 1; rows = [] };
  router = record { breakers = new_breakers ("ollama" ∷ []) 3 30; history = [] };
  recalled = [];
  written = [];
}

abbrev mastery : List (Urge Milli)
mastery =
    record { drive = "mastery"; value = some 900; threshold = some 700; urgency = some 600 } ∷ []

slow-NoCrash : NoCrash slow
slow-NoCrash h call e = ground (arith, e)

usable : Usable thinker.router mind.router
unfolding chain_for validate_routing unknown_provider
usable = (
  slow-NoCrash,
  λ h x e. cc e,
  refl,
  (one_step, refl),
  new_breakers-HasBreakers ("ollama" ∷ []) 3 30,
)

acted-Resting_example :
    let practise = internal_action a_goal [] in
    let acted = (act thinker practise a_goal [] mind).1 in
    let settled = (settle_tool_action thinker a_goal "ran" false mind).1 in
    Resting thinker acted (deliberate thinker mastery none [] (some 50000000) acted)
    × Resting thinker settled (deliberate thinker mastery none [] (some 50000000) settled)
acted-Resting_example =
    acted-Resting thinker (internal_action a_goal []) a_goal [] "ran" false mind mastery none []
      50000000 (omega arith)

-- The model that should write the code is slow, so the goal gets an internal action.
deliberate-Planned_example :
    Planned thinker [] mind.router
      (arbitrate thinker.arbiter none mastery 50000000 0 10000000 mind.goals).0
      mind.last_acted
      50000000
      (deliberate thinker mastery none [] (some 50000000) mind)
deliberate-Planned_example = deliberate-Planned thinker mastery none [] 50000000 mind usable

act-Settled_example :
    Settled thinker 1
      (internal_action a_goal [])
      a_goal
      mind
      (act thinker (internal_action a_goal []) a_goal [] mind)
act-Settled_example =
    act-Settled thinker (λ m. ([], refl)) (λ m. refl) 1 (internal_action a_goal []) a_goal [] mind
      refl usable
