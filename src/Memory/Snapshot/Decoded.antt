-- ===== src/Memory/Snapshot/Decoded.antt =====
-- brain/memory/snapshot.py: each row is read back from its projection.
use johnny.Prelude.{ℕ, String, Option, some, none, List, [], ◌∷◌, ◌≡◌, refl, Dict}
use johnny.Json.{Json, str, int}
use johnny.Goals.Store.{GoalRow}
use johnny.Drives.Engine.{DriveReading}
use johnny.Memory.Working.{WorkingMemoryItem}
use johnny.Memory.Rows.{
  EpisodeRow, SemanticFactRow, SemanticEdgeRow, SkillRow, IdentityRow, MoodRow,
}
use johnny.Memory.Format.{
  Codec, IsFaithful, as_text, as_nat, items_of, list_of, fields_of, dict_of, as_optional_time,
  optional_time, as_optional_float, optional_float,
}
use johnny.Memory.Format.Records.{
  episode_dict, episode_row, fact_dict, fact_row, edge_dict, edge_row, skill_dict, skill_row,
}
use johnny.Memory.Format.States.{
  identity_dict, identity_row, drive_dict, drive_row, mood_dict, mood_row, goal_dict, goal_row,
  item_dict, item_row,
}

pub list_of-items_of :
    {A : Type 0} (r : Json → Option A) (g : A → Json)
    → ((a : A) → r (g a) ≡ some a)
    → (xs : List A) → list_of r (items_of g xs) ≡ some xs
list_of-items_of r g h [] = refl
list_of-items_of r g h (x ∷ xs) = rw (h x, list_of-items_of r g h xs) refl

dict_of-fields_of :
    {A : Type 0} (r : Json → Option A) (g : A → Json)
    → ((a : A) → r (g a) ≡ some a)
    → (d : Dict A) → dict_of r (fields_of g d) ≡ some d
dict_of-fields_of r g h [] = refl
dict_of-fields_of r g h ((k, x) ∷ d) = rw (h x, dict_of-fields_of r g h d) refl

texts-lem : (xs : List String) → list_of as_text (items_of str xs) ≡ some xs
texts-lem xs = list_of-items_of as_text str (λ _. refl) xs

nats-lem : (xs : List ℕ) → list_of as_nat (items_of int xs) ≡ some xs
nats-lem xs = list_of-items_of as_nat int (λ _. refl) xs

module _ {T W : Type 0} (c : Codec T W) (laws : IsFaithful c) where
  floats-lem : (xs : List W) → list_of c.as_float (items_of c.of_float xs) ≡ some xs
  floats-lem xs = list_of-items_of c.as_float c.of_float laws.as_float-of_float xs

  weights-lem : (d : Dict W) → dict_of c.as_float (fields_of c.of_float d) ≡ some d
  weights-lem d = dict_of-fields_of c.as_float c.of_float laws.as_float-of_float d

  optional_time-lem : (t : Option ℕ) → as_optional_time c (optional_time c t) ≡ some t
  optional_time-lem none = refl
  optional_time-lem (some t) = rw (laws.fromisoformat-isoformat t) refl

  optional_float-lem : (w : Option W) → as_optional_float c (optional_float c w) ≡ some w
  optional_float-lem none = refl
  optional_float-lem (some w) = rw (laws.of_float-full w, laws.as_float-of_float w) refl

  pub episode_row-episode_dict : (r : EpisodeRow W) → episode_row c (episode_dict c r) ≡ some r
  unfolding episode_row episode_dict
  episode_row-episode_dict r =
      rw
        (
          laws.fromisoformat-isoformat r.ts,
          texts-lem r.actors,
          texts-lem r.emotion_tags,
          laws.as_float-of_float r.salience,
          floats-lem r.embedding,
        )
        refl

  pub fact_row-fact_dict : (r : SemanticFactRow W) → fact_row c (fact_dict c r) ≡ some r
  unfolding fact_row fact_dict
  fact_row-fact_dict r =
      rw
        (
          laws.as_float-of_float r.confidence,
          nats-lem r.source_episode_ids,
          floats-lem r.embedding,
          laws.fromisoformat-isoformat r.created_at,
          laws.fromisoformat-isoformat r.updated_at,
        )
        refl

  pub edge_row-edge_dict : (r : SemanticEdgeRow) → edge_row c (edge_dict c r) ≡ some r
  unfolding edge_row edge_dict
  edge_row-edge_dict r = refl

  pub skill_row-skill_dict : (r : SkillRow W) → skill_row c (skill_dict c r) ≡ some r
  unfolding skill_row skill_dict
  skill_row-skill_dict r =
      rw
        (
          laws.as_float-of_float r.success_rate,
          floats-lem r.embedding,
          laws.fromisoformat-isoformat r.created_at,
          laws.fromisoformat-isoformat r.updated_at,
        )
        refl

  pub identity_row-identity_dict : (r : IdentityRow) → identity_row c (identity_dict c r) ≡ some r
  unfolding identity_row identity_dict
  identity_row-identity_dict r =
      rw (texts-lem r.values, texts-lem r.concerns, laws.fromisoformat-isoformat r.created_at) refl

  pub drive_row-drive_dict : (r : DriveReading W) → drive_row c (drive_dict c r) ≡ some r
  unfolding drive_row drive_dict
  drive_row-drive_dict r =
      rw
        (
          laws.as_float-of_float r.value,
          laws.as_float-of_float r.setpoint,
          laws.as_float-of_float r.accrual_rate,
          laws.as_float-of_float r.decay_rate,
          laws.as_float-of_float r.threshold,
          laws.fromisoformat-isoformat r.updated_at,
        )
        refl

  pub mood_row-mood_dict : (r : MoodRow W) → mood_row c (mood_dict c r) ≡ some r
  unfolding mood_row mood_dict
  mood_row-mood_dict r =
      rw
        (
          laws.fromisoformat-isoformat r.ts,
          laws.as_float-of_float r.valence,
          laws.as_float-of_float r.arousal,
          weights-lem r.emotions,
        )
        refl

  pub goal_row-goal_dict : (r : GoalRow W) → goal_row c (goal_dict c r) ≡ some r
  unfolding goal_row goal_dict
  goal_row-goal_dict r =
      rw
        (
          laws.as_float-of_float r.priority,
          laws.fromisoformat-isoformat r.created_at,
          optional_time-lem r.resolved_at,
        )
        refl

  pub item_row-item_dict : (r : WorkingMemoryItem W) → item_row c (item_dict c r) ≡ some r
  unfolding item_row item_dict
  item_row-item_dict r =
      rw
        (
          laws.as_float-of_float r.salience,
          laws.as_float-of_float r.created_at,
          optional_float-lem r.expires_at,
        )
        refl
