-- ===== src/Memory/Snapshot.antt =====
-- brain/memory/snapshot.py: every store is dumped to files and loaded back. A transaction that raises
-- leaves the tables as they were (`session_scope` of foundation/db.py).
pub mod Restore
pub mod Decoded
pub mod Inserted
pub mod Loaded
pub mod Rebuilt
pub mod Restored
mod Tests
pub mod Fresh
pub mod Unchanged
use johnny.Prelude.{
  ℕ, String, Bool, true, false, Option, none, some, List, [], ◌∷◌, ◌++◌, Dict, map, lookup, insert,
  eqb, length, if◌then◌else◌,
}
use johnny.Prelude.Exec.{Outcome, returned, raised, Exec, pure, raise, ◌>>=◌, ◌>>◌}
use johnny.Float.{Float}
use johnny.Json.{Json, bool, int, num, str, obj, Fields, end, field}
use johnny.Goals.Store.{GoalRow}
use johnny.Drives.Engine.{DriveReading}
use johnny.Memory.Rows.{
  EpisodeRow, SemanticFactRow, SemanticEdgeRow, SkillRow, IdentityRow, MoodRow,
}
use johnny.Memory.Tables.{
  Stores, Serial, Constraint, Rows, with_first_rows, with_memory_rows, with_all_rows, resync,
  next_after, truncated, delete_moods, episode_constraint, fact_constraint, edge_constraint,
  skill_constraint, identity_constraint, drive_constraint, mood_constraint, goal_constraint,
}
use johnny.Memory.Working.{
  WorkingMemory, WorkingMemoryItem, Stored, export_items, import_items, clear,
}
use johnny.Memory.Format.{Codec, column}
use johnny.Memory.Format.Records.{
  episode_dict, episode_row, fact_dict, fact_row, edge_dict, edge_row, skill_dict, skill_row,
}
use johnny.Memory.Format.States.{
  identity_dict, identity_row, drive_dict, drive_row, mood_dict, mood_row, goal_dict, goal_row,
  item_dict, item_row,
}

pub data SnapshotError : Type 0 where
  no_manifest : SnapshotError
  not_json : SnapshotError
  unsupported_version : SnapshotError
  bad_record : SnapshotError
  integrity_error : SnapshotError
  redis_failed : String → SnapshotError

-- A directory of a snapshot: the manifest, and the lines of the other files by their names.
pub record Directory (T : Type 0) : Type 0 where
  pub manifest : Option T
  pub files : Dict (List T)

pub record World (T W : Type 0) : Type 0 where
  pub stores : Stores W
  pub working : Stored W
  pub snapshots : Dict (Directory T)

-- The records that `restore` reads, before they are made rows.
pub record Records : Type 0 where
  pub episodes : List Json
  pub facts : List Json
  pub edges : List Json
  pub skills : List Json
  pub working_items : List Json
  pub identities : List Json
  pub drives : List Json
  pub moods : List Json
  pub goals : List Json

abbrev pub or_raise : {A : Type 0} → SnapshotError → Option A → Outcome SnapshotError A
or_raise e none = raised e
or_raise e (some a) = returned a

abbrev pub with_lines : {T : Type 0} → String → List T → Directory T → Directory T
with_lines name lines d = record d { files = insert name lines d.files }

abbrev pub directory_of : {T : Type 0} → Option (Directory T) → Directory T
directory_of none = record { manifest = none; files = [] }
directory_of (some d) = d

abbrev pub count_of : {A : Type 0} → List A → Json
count_of xs = int (length xs)

-- The version of a manifest; Python takes `True` for the number 1, and a float for the integer that it
-- equals.
abbrev pub version_of : {T W : Type 0} → Codec T W → Json → Option ℕ
version_of c (obj d) = read (column "version" d)
  where
    read : Option Json → Option ℕ
    read (some (int n)) = some n
    read (some (bool true)) = some 1
    read (some (num t)) = c.as_whole t
    read _ = none
version_of c _ = none

abbrev pub both : {R : Type 0} → Option R → Option (List R) → Option (List R)
both (some x) (some xs) = some (x ∷ xs)
both _ _ = none

abbrev pub all_rows : {R : Type 0} → (Json → Option R) → List Json → Option (List R)
all_rows r [] = some []
all_rows r (j ∷ js) = both (r j) (all_rows r js)

-- The rows that a generator makes of the records; one that it cannot make raises.
abbrev pub decoded : {S R : Type 0} → (Json → Option R) → List Json → Exec S SnapshotError (List R)
decoded r js s = (or_raise bad_record (all_rows r js), s)

abbrev pub stored : {S : Type 0} → Option S → Exec S SnapshotError (Unit {0})
stored none s = (raised integrity_error, s)
stored (some t) s = (returned tt, t)

abbrev pub settled :
    {T W : Type 0}
    → World T W
    → Outcome SnapshotError (Unit {0}) × Stores W
    → Outcome SnapshotError (Unit {0}) × World T W
settled w (returned a, s) = (returned a, record w { stores = s })
settled w (raised e, s) = (raised e, w)

-- `session_scope`: what a body that raises has done is rolled back.
abbrev pub transaction :
    {T W : Type 0}
    → Exec (Stores W) SnapshotError (Unit {0})
    → Exec (World T W) SnapshotError (Unit {0})
transaction body w = settled w (body w.stores)

-- `counts`
abbrev pub counts_of : {W : Type 0} → Stores W → List (WorkingMemoryItem W) → Fields
counts_of s items = field "episodes" (count_of s.episode.rows) (
    field "semantic_facts" (count_of s.semantic_fact.rows) (
      field "semantic_edges" (count_of s.semantic_edge.rows) (
        field "skills" (count_of s.skill.rows) (
          field "working_memory" (count_of items) (
            field "identity" (count_of s.identity.rows) (
              field "drive_state" (count_of s.drive_state) (
                field "mood" (count_of s.mood.rows) (field "goal" (count_of s.goal.rows) end))))))))

module _ {T W : Type 0} ⦃f : Float W⦄ (c : Codec T W) (m : WorkingMemory W) where
  -- `_write_jsonl`
  unfoldable pub write_jsonl :
      {R : Type 0} → String → (R → Json) → List R → Directory T → Directory T
  write_jsonl name project rows d = with_lines name (map (λ r. c.dumps (project r)) rows) d

  unfoldable pub loads_lines : List T → Option (List Json)
  loads_lines [] = some []
  loads_lines (line ∷ lines) =
      let text = c.strip line in
      let rest = loads_lines lines in if c.is_empty text then rest else both (c.loads text) rest

  -- `_read_jsonl`, which takes a file that is not there for an empty one.
  abbrev pub lines_of : Option (List T) → Outcome SnapshotError (List Json)
  lines_of none = returned []
  lines_of (some lines) = or_raise not_json (loads_lines lines)

  abbrev pub read_jsonl : {S : Type 0} → String → Directory T → Exec S SnapshotError (List Json)
  read_jsonl name d s = (lines_of (lookup name d.files), s)

  abbrev pub manifest_of : ℕ → Stores W → List (WorkingMemoryItem W) → Json
  manifest_of now s items = obj (
      field "version" (int 2)
        (field "created_at" (str (c.isoformat now)) (field "counts" (obj (counts_of s items)) end)))

  -- The files of a snapshot, over those that the directory had.
  unfoldable pub written : ℕ → Stores W → List (WorkingMemoryItem W) → Directory T → Directory T
  unfolding write_jsonl
  written now s items d =
      let d = write_jsonl "episodes.jsonl" (episode_dict c) s.episode.rows d in
      let d = write_jsonl "semantic_facts.jsonl" (fact_dict c) s.semantic_fact.rows d in
      let d = write_jsonl "semantic_edges.jsonl" (edge_dict c) s.semantic_edge.rows d in
      let d = write_jsonl "skills.jsonl" (skill_dict c) s.skill.rows d in
      let d = write_jsonl "identity.jsonl" (identity_dict c) s.identity.rows d in
      let d = write_jsonl "drive_state.jsonl" (drive_dict c) s.drive_state d in
      let d = write_jsonl "mood.jsonl" (mood_dict c) s.mood.rows d in
      let d = write_jsonl "goal.jsonl" (goal_dict c) s.goal.rows d in
      let d = write_jsonl "working_memory.jsonl" (item_dict c) items d in
      record d { manifest = some (c.dumps (manifest_of now s items)) }

  -- `MemorySnapshot.snapshot`, with the time of the manifest and the clock of the working memory.
  unfoldable pub snapshot : String → ℕ → W → World T W → World T W
  unfolding written export_items
  snapshot label now clock w =
      let (items, working) = export_items m clock w.working in
      let d = written now w.stores items (directory_of (lookup label w.snapshots)) in
      record { stores = w.stores; working = working; snapshots = insert label d w.snapshots }
