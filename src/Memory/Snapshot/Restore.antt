-- ===== src/Memory/Snapshot/Restore.antt =====
-- brain/memory/snapshot.py: `MemorySnapshot.restore`.
use johnny.Prelude.{
  ◌≡◌, ℕ, String, Bool, true, false, Option, none, some, List, [], ◌∷◌, lookup, insert, eqb,
  if◌then◌else◌,
}
use johnny.Prelude.Exec.{Outcome, returned, raised, Exec, pure, ◌>>=◌, ◌>>◌}
use johnny.Float.{Float}
use johnny.Json.{Json, Fields, end, field}
use johnny.Memory.Rows.{EpisodeRow, SemanticFactRow, SemanticEdgeRow, SkillRow}
use johnny.Memory.Tables.{
  Stores, Rows, with_first_rows, with_memory_rows, with_all_rows, resync, next_after, truncated,
  delete_moods,
}
use johnny.Memory.Working.{WorkingMemory, WorkingMemoryItem, Stored, persist, clear}
use johnny.Memory.Format.{Codec}
use johnny.Memory.Format.Records.{episode_row, fact_row, edge_row, skill_row}
use johnny.Memory.Format.States.{identity_row, drive_row, mood_row, goal_row, item_row}
use johnny.Memory.Snapshot.{
  SnapshotError, Directory, World, Records, or_raise, directory_of, count_of, version_of, decoded,
  stored, transaction, loads_lines, read_jsonl, no_manifest, not_json, unsupported_version,
  bad_record, redis_failed,
}

-- Whether Redis refuses a command of the working memory on what it holds: `delete`, `hset` or `zadd`.
pub record Redis (W : Type 0) : Type 0 where
  pub delete_error : Stored W → Option String
  pub hset_error : Stored W → WorkingMemoryItem W → Option String
  pub zadd_error : Stored W → WorkingMemoryItem W → Option String

-- Redis refuses nothing.
pub record IsUp {W : Type 0} (redis : Redis W) : Type 0 where
  pub deletes : (s : Stored W) → redis.delete_error s ≡ none
  pub hsets : (s : Stored W) (item : WorkingMemoryItem W) → redis.hset_error s item ≡ none
  pub zadds : (s : Stored W) (item : WorkingMemoryItem W) → redis.zadd_error s item ≡ none

module _ {T W : Type 0} ⦃f : Float W⦄ (c : Codec T W) (m : WorkingMemory W) where
  abbrev pub records_of : Directory T → Exec (Unit {0}) SnapshotError Records
  records_of d = do
    episodes ← read_jsonl c m "episodes.jsonl" d
    facts ← read_jsonl c m "semantic_facts.jsonl" d
    edges ← read_jsonl c m "semantic_edges.jsonl" d
    skills ← read_jsonl c m "skills.jsonl" d
    working_items ← read_jsonl c m "working_memory.jsonl" d
    identities ← read_jsonl c m "identity.jsonl" d
    drives ← read_jsonl c m "drive_state.jsonl" d
    moods ← read_jsonl c m "mood.jsonl" d
    goals ← read_jsonl c m "goal.jsonl" d
    pure (record {
      episodes = episodes;
      facts = facts;
      edges = edges;
      skills = skills;
      working_items = working_items;
      identities = identities;
      drives = drives;
      moods = moods;
      goals = goals;
    })

  -- Reading changes nothing.
  abbrev pub read_records : {S : Type 0} → Directory T → Exec S SnapshotError Records
  read_records d s = ((records_of d tt).0, s)

  -- `_clear`
  unfoldable pub clear_tables : Bool → Stores W → Stores W
  unfolding delete_moods
  clear_tables restore_v2 s =
      let t = record s {
        episode = truncated;
        semantic_fact = truncated;
        semantic_edge = truncated;
        skill = truncated;
      } in
      if restore_v2
      then delete_moods (record t { identity = truncated; goal = truncated; drive_state = [] })
      else t

  -- A flush writes all that was added since the last one, or raises.
  abbrev pub flush_first :
      List (EpisodeRow W) → List (SemanticFactRow W) → Exec (Stores W) SnapshotError (Unit {0})
  flush_first episodes facts s = stored (with_first_rows episodes facts s) s

  abbrev pub flush_memory :
      List SemanticEdgeRow → List (SkillRow W) → Exec (Stores W) SnapshotError (Unit {0})
  flush_memory edges skills s = stored (with_memory_rows edges skills s) s

  abbrev pub flush_all : Rows W → Exec (Stores W) SnapshotError (Unit {0})
  flush_all r s = stored (with_all_rows r s) s

  abbrev pub resync_memory : Stores W → Stores W
  resync_memory s = record s {
    episode = resync (λ r. r.id) s.episode;
    semantic_fact = resync (λ r. r.id) s.semantic_fact;
    semantic_edge = resync (λ r. r.id) s.semantic_edge;
    skill = resync (λ r. r.id) s.skill;
  }

  -- `_resync_sequences`
  unfoldable pub resync_sequences : Bool → Stores W → Stores W
  unfolding next_after
  resync_sequences restore_v2 s =
      let t = resync_memory s in
      if restore_v2
      then (record t {
        identity = resync (λ r. r.id) t.identity;
        mood = resync (λ r. r.id) t.mood;
        goal = resync (λ r. r.id) t.goal;
      })
      else t

  abbrev pub changed : (Stores W → Stores W) → Exec (Stores W) SnapshotError (Unit {0})
  changed g s = (returned tt, g s)

  abbrev pub restore_first : Records → Exec (Stores W) SnapshotError (Unit {0})
  restore_first r = do
    episodes ← decoded (episode_row c) r.episodes
    facts ← decoded (fact_row c) r.facts
    flush_first episodes facts

  abbrev pub restore_memory : Records → Exec (Stores W) SnapshotError (Unit {0})
  restore_memory r = do
    edges ← decoded (edge_row c) r.edges
    skills ← decoded (skill_row c) r.skills
    flush_memory edges skills

  abbrev pub decoded_rows : Records → Exec (Stores W) SnapshotError (Rows W)
  decoded_rows r = do
    edges ← decoded (edge_row c) r.edges
    skills ← decoded (skill_row c) r.skills
    identities ← decoded (identity_row c) r.identities
    drives ← decoded (drive_row c) r.drives
    moods ← decoded (mood_row c) r.moods
    goals ← decoded (goal_row c) r.goals
    pure (record {
      edges = edges;
      skills = skills;
      identities = identities;
      drives = drives;
      moods = moods;
      goals = goals;
    })

  abbrev pub restore_rest : Bool → Records → Exec (Stores W) SnapshotError (Unit {0})
  restore_rest is_v2 r = if is_v2 then (decoded_rows r >>= flush_all) else restore_memory r

  unfoldable pub restore_tables : Bool → Bool → Records → Exec (Stores W) SnapshotError (Unit {0})
  unfolding clear_tables with_first_rows with_memory_rows with_all_rows resync_sequences
  restore_tables replace is_v2 r = do
    changed (λ s. if replace then clear_tables is_v2 s else s)
    restore_first r
    restore_rest is_v2 r
    changed (resync_sequences is_v2)

  abbrev pub manifest_json : Option T → Outcome SnapshotError Json
  manifest_json none = raised no_manifest
  manifest_json (some text) = or_raise not_json (c.loads text)

  -- Whether a version that can be read is the second.
  abbrev pub is_v2_of : Option ℕ → Outcome SnapshotError Bool
  is_v2_of (some v) =
      if eqb v 2
      then returned true
      else (if eqb v 1 then returned false else raised unsupported_version)
  is_v2_of none = raised unsupported_version

  abbrev pub from : {S A : Type 0} → Outcome SnapshotError A → Exec S SnapshotError A
  from r s = (r, s)

  abbrev pub read_counts : Bool → Records → Fields
  read_counts is_v2 r = field "episodes" (count_of r.episodes) (
      field "semantic_facts" (count_of r.facts) (
        field "semantic_edges" (count_of r.edges) (
          field "skills" (count_of r.skills) (
            field "working_memory" (count_of r.working_items) (
              if is_v2
              then (field "identity" (count_of r.identities) (
                  field "drive_state" (count_of r.drives)
                    (field "mood" (count_of r.moods) (field "goal" (count_of r.goals) end))))
              else end)))))

  module _ (redis : Redis W) where
    -- A call on the working memory, which lies outside the transaction.
    abbrev pub in_working :
        Exec (Stored W) SnapshotError (Unit {0}) → Exec (World T W) SnapshotError (Unit {0})
    in_working call w = let (out, working) = call w.working in (out, record w { working = working })

    abbrev pub then_sent :
        Option String → Stored W → Stored W → Outcome SnapshotError (Unit {0}) × Stored W
    then_sent none s t = (returned tt, t)
    then_sent (some e) s t = (raised (redis_failed e), s)

    -- `_persist`: `zadd` follows an `hset` that did not raise.
    abbrev pub after_hset :
        Option String → WorkingMemoryItem W → Exec (Stored W) SnapshotError (Unit {0})
    after_hset (some e) item s = (raised (redis_failed e), s)
    after_hset none item s =
        let t = record s { items = insert item.id item s.items } in
        then_sent (redis.zadd_error t item) t (persist m item s)

    abbrev pub persist_or_raise : WorkingMemoryItem W → Exec (Stored W) SnapshotError (Unit {0})
    persist_or_raise item s = after_hset (redis.hset_error s item) item s

    abbrev pub import_one : Option (WorkingMemoryItem W) → Exec (World T W) SnapshotError (Unit {0})
    import_one none w = (raised bad_record, w)
    import_one (some item) w = in_working (persist_or_raise item) w

    -- `import_items` over a generator: the items before a record that is no item stay.
    unfoldable pub import_records : List Json → Exec (World T W) SnapshotError (Unit {0})
    import_records [] w = (returned tt, w)
    import_records (j ∷ js) w = (import_one (item_row c j) >> import_records js) w

    abbrev pub clear_or_raise : Exec (Stored W) SnapshotError (Unit {0})
    clear_or_raise s = then_sent (redis.delete_error s) s (clear m s)

    abbrev pub clear_working : Bool → Exec (World T W) SnapshotError (Unit {0})
    clear_working replace w = if replace then in_working clear_or_raise w else (returned tt, w)

    abbrev pub restore_read : Bool → Bool → Records → Exec (World T W) SnapshotError Fields
    restore_read replace is_v2 r = do
      transaction (restore_tables replace is_v2 r)
      clear_working replace
      import_records r.working_items
      pure (read_counts is_v2 r)

    abbrev pub restore_from : Directory T → Bool → Exec (World T W) SnapshotError Fields
    restore_from d replace = do
      manifest ← from (manifest_json d.manifest)
      is_v2 ← from (is_v2_of (version_of c manifest))
      r ← read_records d
      restore_read replace is_v2 r

    -- `MemorySnapshot.restore`
    unfoldable pub restore : String → Bool → Exec (World T W) SnapshotError Fields
    unfolding restore_tables import_records loads_lines
    restore label replace w = restore_from (directory_of (lookup label w.snapshots)) replace w
