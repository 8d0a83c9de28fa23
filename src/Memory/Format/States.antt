-- ===== src/Memory/Format/States.antt =====
-- The projections of the identity, the drives, the moods, the goals and the working memory's items to
-- the records of a snapshot and back (brain/memory/snapshot.py).
use johnny.Prelude.{String, Option, some, List, [], ◌∷◌}
use johnny.Json.{Json, int, str, arr, obj, end, field}
use johnny.Memory.Rows.{IdentityRow, MoodRow}
use johnny.Memory.Working.{WorkingMemoryItem}
use johnny.Goals.Store.{GoalRow}
use johnny.Drives.Engine.{DriveReading}
use johnny.Memory.Format.{
  Codec, column, record_of, as_nat, as_text, as_fields, items_of, as_list, fields_of, as_dict, time,
  as_time, optional_time, as_optional_time, optional_float, as_optional_float, ◌>>=◌,
}

module _ {T W : Type 0} (c : Codec T W) where
  unfoldable pub identity_dict : IdentityRow → Json
  identity_dict r = obj (
      field "id" (int r.id) (
        field "name" (str r.name) (
          field "self_model_doc" (str r.self_model_doc) (
            field "values" (arr (items_of str r.values)) (
              field "concerns" (arr (items_of str r.concerns)) (
                field "relationships" (obj r.relationships) (
                  field "version" (int r.version)
                    (field "created_at" (time c r.created_at) (end)))))))))

  abbrev identity_columns : List String
  identity_columns =
      "id" ∷ "name" ∷ "self_model_doc" ∷ "values" ∷ "concerns" ∷ "relationships" ∷ "version"
      ∷ "created_at" ∷ []

  unfoldable pub identity_row : Json → Option (IdentityRow)
  identity_row j = do
    d ← record_of identity_columns j
    id ← column "id" d >>= as_nat
    name ← column "name" d >>= as_text
    self_model_doc ← column "self_model_doc" d >>= as_text
    values ← column "values" d >>= as_list as_text
    concerns ← column "concerns" d >>= as_list as_text
    relationships ← column "relationships" d >>= as_fields
    version ← column "version" d >>= as_nat
    created_at ← column "created_at" d >>= as_time c
    some (record {
      id = id;
      name = name;
      self_model_doc = self_model_doc;
      values = values;
      concerns = concerns;
      relationships = relationships;
      version = version;
      created_at = created_at;
    })

  unfoldable pub drive_dict : DriveReading W → Json
  drive_dict r = obj (
      field "drive" (str r.drive) (
        field "value" (c.of_float r.value) (
          field "setpoint" (c.of_float r.setpoint) (
            field "accrual_rate" (c.of_float r.accrual_rate) (
              field "decay_rate" (c.of_float r.decay_rate) (
                field "threshold" (c.of_float r.threshold)
                  (field "updated_at" (time c r.updated_at) (end))))))))

  abbrev drive_columns : List String
  drive_columns =
      "drive" ∷ "value" ∷ "setpoint" ∷ "accrual_rate" ∷ "decay_rate" ∷ "threshold" ∷ "updated_at"
      ∷ []

  unfoldable pub drive_row : Json → Option (DriveReading W)
  drive_row j = do
    d ← record_of drive_columns j
    drive ← column "drive" d >>= as_text
    value ← column "value" d >>= c.as_float
    setpoint ← column "setpoint" d >>= c.as_float
    accrual_rate ← column "accrual_rate" d >>= c.as_float
    decay_rate ← column "decay_rate" d >>= c.as_float
    threshold ← column "threshold" d >>= c.as_float
    updated_at ← column "updated_at" d >>= as_time c
    some (record {
      drive = drive;
      value = value;
      setpoint = setpoint;
      accrual_rate = accrual_rate;
      decay_rate = decay_rate;
      threshold = threshold;
      updated_at = updated_at;
    })

  unfoldable pub mood_dict : MoodRow W → Json
  mood_dict r = obj (
      field "id" (int r.id) (
        field "ts" (time c r.ts) (
          field "valence" (c.of_float r.valence) (
            field "arousal" (c.of_float r.arousal)
              (field "emotions" (obj (fields_of c.of_float r.emotions)) (end))))))

  abbrev mood_columns : List String
  mood_columns = "id" ∷ "ts" ∷ "valence" ∷ "arousal" ∷ "emotions" ∷ []

  unfoldable pub mood_row : Json → Option (MoodRow W)
  mood_row j = do
    d ← record_of mood_columns j
    id ← column "id" d >>= as_nat
    ts ← column "ts" d >>= as_time c
    valence ← column "valence" d >>= c.as_float
    arousal ← column "arousal" d >>= c.as_float
    emotions ← column "emotions" d >>= as_dict c.as_float
    some (record { id = id; ts = ts; valence = valence; arousal = arousal; emotions = emotions })

  unfoldable pub goal_dict : GoalRow W → Json
  goal_dict r = obj (
      field "id" (int r.id) (
        field "source" (str r.source) (
          field "description" (str r.description) (
            field "priority" (c.of_float r.priority) (
              field "status" (str r.status) (
                field "plan" (obj r.plan) (
                  field "outcome" (obj r.outcome) (
                    field "created_at" (time c r.created_at)
                      (field "resolved_at" (optional_time c r.resolved_at) (end))))))))))

  abbrev goal_columns : List String
  goal_columns =
      "id" ∷ "source" ∷ "description" ∷ "priority" ∷ "status" ∷ "plan" ∷ "outcome" ∷ "created_at"
      ∷ "resolved_at" ∷ []

  unfoldable pub goal_row : Json → Option (GoalRow W)
  goal_row j = do
    d ← record_of goal_columns j
    id ← column "id" d >>= as_nat
    source ← column "source" d >>= as_text
    description ← column "description" d >>= as_text
    priority ← column "priority" d >>= c.as_float
    status ← column "status" d >>= as_text
    plan ← column "plan" d >>= as_fields
    outcome ← column "outcome" d >>= as_fields
    created_at ← column "created_at" d >>= as_time c
    resolved_at ← column "resolved_at" d >>= as_optional_time c
    some (record {
      id = id;
      source = source;
      description = description;
      priority = priority;
      status = status;
      plan = plan;
      outcome = outcome;
      created_at = created_at;
      resolved_at = resolved_at;
    })

  unfoldable pub item_dict : WorkingMemoryItem W → Json
  item_dict r = obj (
      field "id" (str r.id) (
        field "content" (str r.content) (
          field "kind" (str r.kind) (
            field "salience" (c.of_float r.salience) (
              field "created_at" (c.of_float r.created_at)
                (field "expires_at" (optional_float c r.expires_at) (end)))))))

  abbrev item_columns : List String
  item_columns = "id" ∷ "content" ∷ "kind" ∷ "salience" ∷ "created_at" ∷ "expires_at" ∷ []

  unfoldable pub item_row : Json → Option (WorkingMemoryItem W)
  item_row j = do
    d ← record_of item_columns j
    id ← column "id" d >>= as_text
    content ← column "content" d >>= as_text
    kind ← column "kind" d >>= as_text
    salience ← column "salience" d >>= c.as_float
    created_at ← column "created_at" d >>= c.as_float
    expires_at ← column "expires_at" d >>= as_optional_float c
    some (record {
      id = id;
      content = content;
      kind = kind;
      salience = salience;
      created_at = created_at;
      expires_at = expires_at;
    })
