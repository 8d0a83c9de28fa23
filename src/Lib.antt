-- ===== src/Lib.antt =====
-- A verification library of Johnny5, a being with drives, goals, tools and a conscience that runs on
-- language models: the control logic of the Python package `brain`, and what it guarantees.
--
-- The parts and how they meet:
--
-- * The heartbeat, brain/cycle.py. A tick runs ten stages in order, each isolated from the failures of
--   the others: perceive, appraise, attend, recall, narrate, deliberate, check, act, learn and state.
--   Between ticks it may sleep, and a wake check then sets whether it has full agency.
--   Cycle/Gate is `CycleGate`; Cycle/Interval the modulated interval and the bias of the attention;
--   Cycle/Scene the fields of `CognitiveCycle`, `CycleContext`, `_stage`, `_emit` and the calls of
--   collaborators; Cycle/Stages the stage methods under their names less the underscore; Cycle/Tick
--   `tick`, `_maybe_sleep` and `apply_wake_check`.
-- * Sleep, brain/sleep.py: Sleep has the trigger and the pipeline of `SleepCycle`, a chain of stages of
--   which each may fail alone. Cycle/Tick reads only the verdict of its report.
-- * Inputs, brain/agents/sensorium.py: Sensorium has `InputQueue`, which the interfaces and the
--   scheduler push to and each tick drains.
-- * Drives, brain/drives: Drives/Parameters is parameters.py, Drives/Engine is engine.py. Appraise steps
--   the drives; those over threshold become urges.
-- * Affect, brain/affect: Affect/Appraisal is appraisal.py, Affect/Rules `derive_appraisal` of agent.py and
--   Affect/Agent the rest of it. A tick's appraisal moves the mood, which colours the goals.
-- * Goals, brain/goals: Goals/Store is store.py, with the table as a list of rows and the next key;
--   Goals/Arbiter is arbiter.py. Deliberation arbitrates from the urges to a single active goal.
-- * Deliberation, brain/agents/deliberation.py: Deliberation/Plan has what follows from the goal alone,
--   Deliberation/Agent the stage with its cadence, its calls of the model and its outcomes.
-- * The effectors, brain/effectors and brain/agents/conscience.py. Check has the Conscience vet the
--   action of the goal and act commits it: Effectors/Tools is tools.py, Effectors/Conscience
--   conscience.py, Effectors/Dispatch dispatch.py, Effectors/Scheduler scheduler.py, and
--   Effectors/SafeHttp safe_http.py, the gate before each page that a tool reads.
-- * The inference layer, brain/llm, which the Conscience and other agents call: Llm has the types of
--   base.py, Llm/Breaker circuit_breaker.py, Llm/Pricing pricing.py, Llm/Routing routing.py, and
--   Llm/Router router.py with call_logger.py.
-- * The bus, brain/workspace.py: Workspace has its events and items, Workspace/Bus the broadcasts, the
--   subscriptions, the dispatch and the listener. Json has the dictionaries that events carry.
-- * Attention, brain/agents/attention.py: Attention scores the percepts and the working memory and
--   selects what goes to the workspace. Its literals and the power `**` are fields of its settings.
-- * Working memory, brain/memory/working.py: Memory/Working has the bounded set that attention selects
--   from, a hash and a sorted set in Redis; the order that `zrange` lists in is a parameter, and calls
--   run one after the other.
-- * Snapshots, brain/memory/snapshot.py: Memory/Rows has the rows of the persistent stores,
--   Memory/Tables the tables with the constraints that alembic/versions gives them, Memory/Format the
--   records of the files, Memory/Snapshot `snapshot` and Memory/Snapshot/Restore `restore`. A file is
--   the list of its lines, and the texts that `json` and `datetime` print are a parameter. Which commands
--   Redis refuses in a restore is one too; in a snapshot Redis and the file system are taken to answer.
-- * The long-term memory, brain/memory: Memory/Base is base.py, Memory/Stores the writes of semantic.py and
--   procedural.py, and Memory/Consolidator consolidator.py, which distils episodes to facts.
-- * Decay, brain/memory/decay.py: Memory/Decay has the pass over the episodes and the merge of facts.
--
-- How the code is read: a method that changes `self` takes the state and returns it; one that may raise
-- returns an `Outcome` beside the state, so what was done before a raise stays done. Providers, clocks,
-- the budget, tools, the audit sink and the bus are functions of all that happened before, so nothing is
-- assumed of their answers but what a theorem names. `asyncio` runs one coroutine at a time; where other
-- calls may come between, as between vetting and committing, the theorems range over all orders. The
-- cancellation of a task is left out. Times are whole microseconds, or seconds where the code compares
-- seconds only. Floats are a type with the operations of the code (Float); the theorems assume the laws
-- of IEEE comparisons where they name them, and nothing of the rounding of sums and products. A quotient
-- by zero, which raises in Python, is one value of the type here: the code divides by 1 less a
-- threshold under 1, by a positive rate, and by 1 plus a product of settings and an arousal that are
-- not negative. The tables are lists of rows, and SQL's order among equal keys is that of the rows.
-- `json.dumps`, the parse of a verdict by Pydantic and `exp` are parameters.
--
-- The loops are recursions on the chain, on the retries that are left, on lists of rows, items and
-- events, so none needs fuel. What the events of the bus bring about is counted in generations.
--
-- Not modelled: the recall of the long-term memory, a collaborator of the cycle; the probes of the
-- wake self-check, a collaborator of the sleep; the payloads of the broadcasts of a tick; deliberation's
-- prompts; the HTTP tools and providers, the web API and the user interface, database sessions and
-- settings, which pass values on.
pub mod Affect
pub mod Attention
pub mod Cycle
pub mod Deliberation
pub mod Drives
pub mod Effectors
pub mod Float
pub mod Goals
pub mod Json
pub mod Llm
pub mod Memory
pub mod Prelude
pub mod Sensorium
pub mod Sleep
pub mod Workspace
