-- ===== src/Memory/Snapshot/Rebuilt.antt =====
-- brain/memory/snapshot.py: the transaction of `restore` builds the saved tables again.
use johnny.Prelude.{true, List, ◌≡◌, refl, map}
use johnny.Prelude.Exec.{Outcome, returned, ◌>>◌}
use johnny.Float.{Float}
use johnny.Memory.Tables.{
  Stores, Rows, with_first_rows, with_memory_rows, with_all_rows, IsValid, next_after, delete_moods,
  forget_mood, episode_constraint, fact_constraint, edge_constraint, skill_constraint,
  identity_constraint, drive_constraint, mood_constraint, goal_constraint,
}
use johnny.Memory.Format.{Codec, IsFaithful}
use johnny.Memory.Format.Records.{
  episode_dict, episode_row, fact_dict, fact_row, edge_dict, edge_row, skill_dict, skill_row,
}
use johnny.Memory.Format.States.{
  identity_dict, identity_row, drive_dict, drive_row, mood_dict, mood_row, goal_dict, goal_row,
}
use johnny.Memory.Working.{WorkingMemory, WorkingMemoryItem}
use johnny.Memory.Snapshot.{SnapshotError, decoded}
use johnny.Memory.Snapshot.Restore.{
  changed, decoded_rows, restore_first, flush_first, flush_all, restore_rest, restore_tables,
  clear_tables, resync_sequences,
}
use johnny.Memory.Snapshot.Decoded.{
  episode_row-episode_dict, fact_row-fact_dict, edge_row-edge_dict, skill_row-skill_dict,
  identity_row-identity_dict, drive_row-drive_dict, mood_row-mood_dict, goal_row-goal_dict,
}
use johnny.Memory.Snapshot.Loaded.{all_rows-map, then_returned, recorded}
use johnny.Memory.Snapshot.Inserted.{insert_all_sound}

module _ {W : Type 0} where
  -- What a restore of the second version leaves, from the stores that were saved and those before.
  abbrev pub restored : Stores W → Stores W → Stores W
  restored s before = record {
    episode = record { next_id = next_after (λ r. r.id) s.episode.rows; rows = s.episode.rows };
    semantic_fact = record {
      next_id = next_after (λ r. r.id) s.semantic_fact.rows;
      rows = s.semantic_fact.rows;
    };
    semantic_edge = record {
      next_id = next_after (λ r. r.id) s.semantic_edge.rows;
      rows = s.semantic_edge.rows;
    };
    skill = record { next_id = next_after (λ r. r.id) s.skill.rows; rows = s.skill.rows };
    identity = record { next_id = next_after (λ r. r.id) s.identity.rows; rows = s.identity.rows };
    drive_state = s.drive_state;
    mood = record { next_id = next_after (λ r. r.id) s.mood.rows; rows = s.mood.rows };
    goal = record { next_id = next_after (λ r. r.id) s.goal.rows; rows = s.goal.rows };
    thought = map forget_mood before.thought;
  }

module _ {T W : Type 0} ⦃f : Float W⦄ (c : Codec T W) (laws : IsFaithful c)
    (m : WorkingMemory W) where
  abbrev with_first : Stores W → Stores W → Stores W
  with_first s before =
      let t = clear_tables c m true before in
      record t {
        episode = record t.episode { rows = s.episode.rows };
        semantic_fact = record t.semantic_fact { rows = s.semantic_fact.rows };
      }

  restore_first-recorded :
      (s before : Stores W) (items : List (WorkingMemoryItem W))
      → IsValid s
      → restore_first c m (recorded c s items) (clear_tables c m true before)
        ≡ (returned tt, with_first s before)
  unfolding with_first_rows clear_tables delete_moods
  restore_first-recorded s before items v =
      rw
        (
          restore_first,
          decoded,
          all_rows-map (episode_row c) (episode_dict c) s.episode.rows
              (episode_row-episode_dict c laws),
          all_rows-map (fact_row c) (fact_dict c) s.semantic_fact.rows (fact_row-fact_dict c laws),
          flush_first,
          with_first_rows,
          insert_all_sound episode_constraint s.episode.rows v.episodes,
          insert_all_sound fact_constraint s.semantic_fact.rows v.facts,
        )
        refl

  abbrev rows_of : Stores W → Rows W
  rows_of s = record {
    edges = s.semantic_edge.rows;
    skills = s.skill.rows;
    identities = s.identity.rows;
    drives = s.drive_state;
    moods = s.mood.rows;
    goals = s.goal.rows;
  }

  decoded_rows-recorded :
      (s t : Stores W) (items : List (WorkingMemoryItem W))
      → decoded_rows c m (recorded c s items) t ≡ (returned (rows_of s), t)
  decoded_rows-recorded s t items =
      rw
        (
          decoded_rows,
          decoded,
          all_rows-map (edge_row c) (edge_dict c) s.semantic_edge.rows (edge_row-edge_dict c laws),
          all_rows-map (skill_row c) (skill_dict c) s.skill.rows (skill_row-skill_dict c laws),
          all_rows-map (identity_row c) (identity_dict c) s.identity.rows
              (identity_row-identity_dict c laws),
          all_rows-map (drive_row c) (drive_dict c) s.drive_state (drive_row-drive_dict c laws),
          all_rows-map (mood_row c) (mood_dict c) s.mood.rows (mood_row-mood_dict c laws),
          all_rows-map (goal_row c) (goal_dict c) s.goal.rows (goal_row-goal_dict c laws),
        )
        refl

  abbrev with_rest : Stores W → Stores W → Stores W
  with_rest s t = record t {
    semantic_edge = record t.semantic_edge { rows = s.semantic_edge.rows };
    skill = record t.skill { rows = s.skill.rows };
    identity = record t.identity { rows = s.identity.rows };
    drive_state = s.drive_state;
    mood = record t.mood { rows = s.mood.rows };
    goal = record t.goal { rows = s.goal.rows };
  }

  flush_all-recorded :
      (s before : Stores W)
      → IsValid s
      → flush_all c m (rows_of s) (with_first s before)
        ≡ (returned tt, with_rest s (with_first s before))
  unfolding with_memory_rows with_all_rows clear_tables delete_moods
  flush_all-recorded s before v =
      rw
        (
          flush_all,
          with_all_rows,
          with_memory_rows,
          insert_all_sound (edge_constraint s.semantic_fact.rows) s.semantic_edge.rows v.edges,
          insert_all_sound skill_constraint s.skill.rows v.skills,
          insert_all_sound identity_constraint s.identity.rows v.identities,
          insert_all_sound drive_constraint s.drive_state v.drives,
          insert_all_sound mood_constraint s.mood.rows v.moods,
          insert_all_sound goal_constraint s.goal.rows v.goals,
        )
        refl

  pub restore_tables-recorded :
      (s before : Stores W) (items : List (WorkingMemoryItem W))
      → IsValid s
      → restore_tables c m true true (recorded c s items) before ≡ (returned tt, restored s before)
  unfolding restore_tables clear_tables delete_moods resync_sequences
  restore_tables-recorded s before items v =
      let r = recorded c s items in
      let end_ = changed c m (resync_sequences c m true) in
      let rest = restore_rest c m true r in
      let done : Outcome SnapshotError (Unit {0}) × Stores W = (returned tt, restored s before) in
      let rested : Outcome SnapshotError (Unit {0}) × Stores W =
        (returned tt, with_rest s (with_first s before)) in
      then_returned (changed c m (clear_tables c m true))
        (λ _. restore_first c m r >> (rest >> end_)) before (clear_tables c m true before) tt done
        refl
        (then_returned (restore_first c m r) (λ _. rest >> end_) (clear_tables c m true before)
          (with_first s before) tt done (restore_first-recorded s before items v)
          (then_returned rest (λ _. end_) (with_first s before) (with_rest s (with_first s before))
            tt done
            (then_returned (decoded_rows c m r) (flush_all c m) (with_first s before)
              (with_first s before) (rows_of s) rested
              (decoded_rows-recorded s (with_first s before) items) (flush_all-recorded s before v))
            refl))
