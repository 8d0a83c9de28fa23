-- ===== src/Memory/Snapshot/Loaded.antt =====
-- brain/memory/snapshot.py: the files of a snapshot are read back as the records that were written.
use johnny.Prelude.{
  ℕ, String, true, Option, some, insert, List, [], ◌∷◌, ◌≡◌, refl, ap, ◌∙◌, map, lookup,
  lookup-insert, arith, eq_iff, ◌==◌,
}
use johnny.Prelude.Exec.{Exec, Outcome, returned, raised, ◌>>=◌}
use johnny.Float.{Float}
use johnny.Json.{Json}
use johnny.Memory.Tables.{Stores}
use johnny.Memory.Format.{Codec, IsFaithful}
use johnny.Memory.Format.Records.{episode_dict, fact_dict, edge_dict, skill_dict}
use johnny.Memory.Format.States.{identity_dict, drive_dict, mood_dict, goal_dict, item_dict}
use johnny.Memory.Working.{WorkingMemory, WorkingMemoryItem, Stored, import_items, persist}
use johnny.Memory.Snapshot.{
  Directory, World, Records, loads_lines, all_rows, written, write_jsonl, read_jsonl, lines_of,
}
use johnny.Memory.Snapshot.Restore.{
  records_of, read_records, import_records, import_one, persist_or_raise, Redis, IsUp,
}
use johnny.Memory.Snapshot.Decoded.{item_row-item_dict}

pub eq_refl : (k : String) → (k == k) ≡ true
eq_refl k = ground (arith, eq_iff k k)

pub all_rows-map :
    {R : Type 0} (r : Json → Option R) (p : R → Json) (rows : List R)
    → ((x : R) → r (p x) ≡ some x)
    → all_rows r (map p rows) ≡ some rows
all_rows-map r p [] h = refl
all_rows-map r p (x ∷ rows) h = rw (h x, all_rows-map r p rows h) refl

pub then_returned :
    {S X A B : Type 0} (m : Exec S X A) (g : A → Exec S X B) (s t : S) (a : A) (r : Outcome X B × S)
    → m s ≡ (returned a, t)
    → g a t ≡ r
    → (m >>= g) s ≡ r
then_returned {S = S} {X = X} {A = A} m g s t a r h k =
    ap (λ (z : Outcome X A × S). elim z.0 [ returned b ↦ g b z.1 | raised x ↦ (raised x, z.1) ]) h
    ∙ k

module _ {T W : Type 0} (c : Codec T W) where
  abbrev pub recorded : Stores W → List (WorkingMemoryItem W) → Records
  recorded s items = record {
    episodes = map (episode_dict c) s.episode.rows;
    facts = map (fact_dict c) s.semantic_fact.rows;
    edges = map (edge_dict c) s.semantic_edge.rows;
    skills = map (skill_dict c) s.skill.rows;
    working_items = map (item_dict c) items;
    identities = map (identity_dict c) s.identity.rows;
    drives = map (drive_dict c) s.drive_state;
    moods = map (mood_dict c) s.mood.rows;
    goals = map (goal_dict c) s.goal.rows;
  }

module _ {T W : Type 0} ⦃f : Float W⦄ (c : Codec T W) (laws : IsFaithful c)
    (m : WorkingMemory W) where
  loads_lines-map :
      {R : Type 0} (p : R → Json) (rows : List R)
      → loads_lines c m (map (λ r. c.dumps (p r)) rows) ≡ some (map p rows)
  unfolding loads_lines
  loads_lines-map p [] = refl
  loads_lines-map p (r ∷ rows) =
      rw
        (
          laws.strip-dumps (p r),
          laws.dumps-full (p r),
          laws.loads-dumps (p r),
          loads_lines-map p rows,
        )
        refl

  persisted :
      (redis : Redis W) (up : IsUp redis) (item : WorkingMemoryItem W) (s : Stored W)
      → persist_or_raise c m redis item s ≡ (returned tt, persist m item s)
  persisted redis up item s =
      rw (up.hsets s item, up.zadds (record s { items = insert item.id item s.items }) item) refl

  pub import_records-map :
      (redis : Redis W) (up : IsUp redis) (items : List (WorkingMemoryItem W)) (w : World T W)
      → import_records c m redis (map (item_dict c) items) w
        ≡ (returned tt, record w { working = import_items m items w.working })
  unfolding import_records import_items
  import_records-map redis up [] w = refl
  import_records-map redis up (item ∷ items) w =
      let t = record w { working = persist m item w.working } in
      rw (item_row-item_dict c laws item) (
        then_returned (import_one c m redis (some item))
          (λ _. import_records c m redis (map (item_dict c) items)) w t tt
          (returned tt, record w { working = import_items m (item ∷ items) w.working })
          (ap (λ z. (z.0, record w { working = z.1 })) (persisted redis up item w.working))
          (import_records-map redis up items t))

  lines_of-map :
      {R : Type 0} (p : R → Json) (rows : List R) (o : Option (List T))
      → o ≡ some (map (λ r. c.dumps (p r)) rows)
      → lines_of c m o ≡ returned (map p rows)
  lines_of-map p rows o h = rw (h, loads_lines-map p rows) refl

  pub read_records-written :
      {S : Type 0} (now : ℕ) (s : Stores W) (items : List (WorkingMemoryItem W)) (d : Directory T)
      (t : S)
      → read_records c m (written c m now s items d) t ≡ (returned (recorded c s items), t)
  unfolding written write_jsonl
  read_records-written {S = S} now s items d t =
      let files = (written c m now s items d).files in
      rw
        (
          read_records,
          records_of,
          read_jsonl,
          lines_of-map (episode_dict c) s.episode.rows (lookup "episodes.jsonl" files)
              (simp lookup-insert refl),
          lines_of-map (fact_dict c) s.semantic_fact.rows (lookup "semantic_facts.jsonl" files)
              (simp lookup-insert refl),
          lines_of-map (edge_dict c) s.semantic_edge.rows (lookup "semantic_edges.jsonl" files)
              (simp lookup-insert refl),
          lines_of-map (skill_dict c) s.skill.rows (lookup "skills.jsonl" files)
              (simp lookup-insert refl),
          lines_of-map (item_dict c) items (lookup "working_memory.jsonl" files)
              (simp lookup-insert refl),
          lines_of-map (identity_dict c) s.identity.rows (lookup "identity.jsonl" files)
              (simp lookup-insert refl),
          lines_of-map (drive_dict c) s.drive_state (lookup "drive_state.jsonl" files)
              (simp lookup-insert refl),
          lines_of-map (mood_dict c) s.mood.rows (lookup "mood.jsonl" files)
              (simp lookup-insert refl),
          lines_of-map (goal_dict c) s.goal.rows (lookup "goal.jsonl" files)
              (simp lookup-insert refl),
        )
        refl
