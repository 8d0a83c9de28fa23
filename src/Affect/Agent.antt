-- ===== src/Affect/Agent.antt =====
-- brain/affect/agent.py: the appraisal of a tick by rules or, for a fresh interaction, by the model of the
-- router, and the running mood with its table. A method takes the time that it would read from the
-- clock; `parse` is the validation of a JSON text as an `Appraisal` by Pydantic.
pub mod Felt
pub mod Idle
pub mod Judged
use Prim.Native.String.{◌++◌ as append_text}
use johnny.Prelude.{
  ℕ, suc, ◌-◌, String, Bool, true, false, not, Option, none, some, List, [], ◌∷◌, ◌++◌, Dict,
  lookup, insert, any, map, select, if◌then◌else◌, ◌==◌, ◌&&◌, ◌||◌, ltb,
}
use johnny.Prelude.Exec.{Outcome, returned, raised, Exec, pure, raise, ◌>>=◌, ◌>>◌}
use johnny.Prelude.Keys.{keys}
use johnny.Prelude.Sort.{max_by}
use johnny.Float.{Float, clamp01}
use johnny.Workspace.{WorkspaceItem}
use johnny.Drives.Engine.{DriveEvent, DriveReading, over_threshold, urgency}
use johnny.Llm.{
  Role, text, Completion, LlmError, unavailable, unavailable_by, schema_validation, Schema, other,
}
use johnny.Llm.Router.{Request, Outside, Config, State, complete}
use johnny.Memory.Rows.{MoodRow}
use johnny.Memory.Tables.{Serial}
use johnny.Affect.Appraisal.{
  Numbers, Appraisal, MoodDelta, Mood, baseline, absolute, appraise_dimensions, blend_mood,
}
use johnny.Affect.Rules.{fresh_input, first_of, larger, derive_appraisal}

-- What `Affect` is made with, and what it calls: the validation of an answer, the length of a time in
-- seconds, and the errors of the two queries, which may depend on the table.
pub record Routed : Type 0 where
  pub outside : Outside
  pub config : Config

pub record Affect (W : Type 0) : Type 0 where
  pub numbers : Numbers W
  pub router : Option Routed
  pub prompt : String
  pub max_tokens : ℕ
  pub halflife : W
  pub responsiveness : W
  pub persist_min_change : W
  pub parse : String → Outcome String (Appraisal W)
  pub seconds : ℕ → W
  pub latest_error : Serial (MoodRow W) → Option String
  pub add_error : Serial (MoodRow W) → Option String

-- `_current`, the table `mood` and the state of the router
pub record Feeling (W : Type 0) : Type 0 where
  pub current : Option (Mood W)
  pub mood : Serial (MoodRow W)
  pub router : State

abbrev pub Appraising : Type 0 → Type 0 → Type 0
Appraising W = Exec (Feeling W) LlmError

abbrev pub row_to_mood : {W : Type 0} → MoodRow W → Mood W
row_to_mood row = record {
  id = some row.id;
  ts = some row.ts;
  valence = row.valence;
  arousal = row.arousal;
  emotions = row.emotions;
}

-- `MoodRepository.latest`, where the first of equal times stands for SQL's choice
unfoldable pub latest : {W : Type 0} → List (MoodRow W) → Option (MoodRow W)
unfolding max_by
latest [] = none
latest (r ∷ rs) = some (max_by ltb (λ row. row.ts) r rs)

abbrev pub failure_of : {A : Type 0} → Outcome String A → Option String
failure_of (returned a) = none
failure_of (raised e) = some e

abbrev is_unsaved : Option ℕ → Bool
is_unsaved none = true
is_unsaved (some id) = false

abbrev situation_text : String → String
situation_text situation =
    append_text "Appraise this event for how it bears on your goals and wellbeing.\nEvent: " (
      append_text situation
        "\n\nRespond with ONLY JSON: {\"goal_congruence\": <-1..1>, \"novelty\": <0..1>, \"agency\": <0..1>, \"certainty\": <0..1>, \"emotions\": {\"<emotion>\": <0..1>}}.")

module _ {W : Type 0} ⦃f : Float W⦄ (a : Affect W) where
  abbrev pub request : String → Request
  request situation = record {
    role = "affect";
    messages =
        record { role = Role.system; content = text a.prompt }
        ∷ record { role = Role.user; content = text (situation_text situation) }
        ∷ [];
    schema = some (record { name = "Appraisal"; validation_error = λ s. failure_of (a.parse s) });
    temperature = 40;
    max_tokens = some a.max_tokens;
  }

  abbrev pub parsed : Outcome String (Appraisal W) → Outcome LlmError (Option (Appraisal W))
  parsed (returned appraisal) = returned (some appraisal)
  parsed (raised e) = raised (other e)

  abbrev pub answered : Outcome LlmError Completion → Outcome LlmError (Option (Appraisal W))
  answered (returned done) = parsed (a.parse done.content)
  answered (raised (unavailable role)) = returned none
  answered (raised (unavailable_by role cause)) = returned none
  answered (raised x) = raised x

  unfoldable pub appraise_with_llm : Routed → String → Appraising W (Option (Appraisal W))
  appraise_with_llm routed situation s =
      let (out, t) = complete routed.outside routed.config (request situation) s.router in
      (answered out, record s { router = t })

  abbrev pub or_derived : Appraisal W → Option (Appraisal W) → Appraising W (Appraisal W)
  or_derived derived none = pure derived
  or_derived derived (some appraisal) = pure appraisal

  abbrev pub appraise_by : Option String → Option Routed → Appraisal W → Appraising W (Appraisal W)
  appraise_by (some situation) (some routed) derived =
      appraise_with_llm routed situation >>= or_derived derived
  appraise_by none router derived = pure derived
  appraise_by (some situation) none derived = pure derived

  -- `_appraise`
  unfoldable pub appraise :
      List (WorkspaceItem W)
      → List (DriveReading W)
      → List (DriveEvent W)
      → Appraising W (Appraisal W)
  unfolding appraise_with_llm derive_appraisal
  appraise contents drives events =
      appraise_by (fresh_input contents) a.router
        (derive_appraisal a.numbers contents drives events)

  abbrev weight_or_zero : Option W → W
  weight_or_zero none = f.zero
  weight_or_zero (some v) = v

  abbrev lonely : Option (DriveReading W) → MoodDelta W → MoodDelta W
  lonely none delta = delta
  lonely (some connection) delta =
      let felt =
        larger a.numbers (weight_or_zero (lookup "loneliness" delta.emotions))
          (urgency connection) in
      if over_threshold connection
      then record delta { emotions = insert "loneliness" (clamp01 felt) delta.emotions }
      else delta

  -- `_tag_loneliness`
  unfoldable pub tag_loneliness : MoodDelta W → List (DriveReading W) → MoodDelta W
  unfolding over_threshold urgency clamp01
  tag_loneliness delta drives = lonely (first_of "connection" drives) delta

  abbrev pub row_or_baseline : Option (MoodRow W) → Mood W
  row_or_baseline none = baseline a.numbers
  row_or_baseline (some row) = row_to_mood row

  abbrev pub load_from : Option (Mood W) → Option String → Appraising W (Unit {0})
  load_from (some mood) error s = (returned tt, s)
  load_from none (some e) s = (raised (other e), s)
  load_from none none s =
      (returned tt, record s { current = some (row_or_baseline (latest s.mood.rows)) })

  -- `_ensure_loaded`
  unfoldable pub ensure_loaded : Appraising W (Unit {0})
  unfolding latest
  ensure_loaded s = load_from s.current (a.latest_error s.mood) s

  -- The assertion that a mood is loaded
  abbrev pub loaded : Option (Mood W) → Outcome LlmError (Mood W)
  loaded none = raised (other "AssertionError")
  loaded (some mood) = returned mood

  abbrev pub read_current : Appraising W (Mood W)
  read_current s = (loaded s.current, s)

  -- `Affect.current`
  unfoldable pub current : Appraising W (Mood W)
  unfolding ensure_loaded
  current = ensure_loaded >> read_current

  abbrev pub elapsed : Option ℕ → ℕ → W
  elapsed none now = f.zero
  elapsed (some ts) now = a.seconds (now - ts)

  abbrev covers : Dict W → Dict W → Bool
  covers d [] = true
  covers d ((e, v) ∷ es) = any (λ k. k == e) (keys d) && covers d es

  -- `_should_persist`; the sets of tags are compared.
  unfoldable pub should_persist : Mood W → Mood W → Bool
  should_persist old new =
      let moved =
        f.add (absolute a.numbers (f.sub new.valence old.valence))
          (absolute a.numbers (f.sub new.arousal old.arousal)) in
      is_unsaved old.id
      || (f.le a.persist_min_change moved
          || not (covers new.emotions old.emotions && covers old.emotions new.emotions))

  abbrev pub mood_row : ℕ → Mood W → ℕ → MoodRow W
  mood_row id new now = record {
    id = id;
    ts = now;
    valence = new.valence;
    arousal = new.arousal;
    emotions = new.emotions;
  }

  abbrev pub persisted : Option String → Mood W → ℕ → Appraising W (Mood W)
  persisted (some e) new now s = (raised (other e), s)
  persisted none new now s =
      let row = mood_row s.mood.next_id new now in
      (
        returned (row_to_mood row),
        record s {
          current = some (row_to_mood row);
          mood = record { next_id = suc s.mood.next_id; rows = s.mood.rows ++ row ∷ [] };
        },
      )

  abbrev pub kept : Mood W → Mood W → ℕ → Appraising W (Mood W)
  kept old new now s =
      let mood = record new { id = old.id; ts = some now } in
      (returned mood, record s { current = some mood })

  -- `_commit`
  unfoldable pub commit : Mood W → ℕ → Mood W → Appraising W (Mood W)
  unfolding should_persist
  commit new now old s =
      if should_persist old new
      then persisted (a.add_error s.mood) new now s
      else kept old new now s

  -- The mood that an appraisal makes of the current one
  unfoldable pub moved_by : Appraisal W → List (DriveReading W) → ℕ → Mood W → Mood W
  unfolding appraise_dimensions tag_loneliness blend_mood
  moved_by appraisal drives now old =
      blend_mood a.numbers old (tag_loneliness (appraise_dimensions a.numbers appraisal) drives)
        (elapsed old.ts now) (baseline a.numbers) a.halflife a.responsiveness (a.numbers.lit 60)

  abbrev pub feel : List (DriveReading W) → ℕ → Appraisal W → Mood W → Appraising W (Mood W)
  feel drives now appraisal old = commit (moved_by appraisal drives now old) now old

  abbrev pub feel_with : List (DriveReading W) → ℕ → Appraisal W → Appraising W (Mood W)
  feel_with drives now appraisal = current >>= feel drives now appraisal

  unfoldable pub appraise_tick :
      List (WorkspaceItem W)
      → List (DriveReading W)
      → List (DriveEvent W)
      → ℕ
      → Appraising W (Mood W)
  unfolding ensure_loaded appraise moved_by current commit
  appraise_tick contents drives events now =
      ensure_loaded >> (appraise contents drives events >>= feel_with drives now)
