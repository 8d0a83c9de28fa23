-- ===== src/Memory/Snapshot/Restored.antt =====
-- brain/memory/snapshot.py: a snapshot that is restored.
use johnny.Prelude.{
  ℕ, String, Bool, true, List, [], ◌∷◌, ◌≡◌, refl, ap, ◌∙◌, map, lookup, insert, lookup-insert,
  length, arith,
}
use johnny.Prelude.Exec.{Exec, Outcome, returned, ◌>>=◌, ◌>>◌}
use johnny.Float.{Float}
use johnny.Json.{Json, Fields}
use johnny.Memory.Tables.{Stores, IsValid}
use johnny.Memory.Format.{Codec, IsFaithful}
use johnny.Memory.Format.Records.{episode_dict, fact_dict, edge_dict, skill_dict}
use johnny.Memory.Format.States.{identity_dict, drive_dict, mood_dict, goal_dict, item_dict}
use johnny.Memory.Working.{
  WorkingMemory, WorkingMemoryItem, import_items, clear, export_items, prune_expired, read_all,
}
use johnny.Memory.Working.Capacity.{IsSynced, prune-IsSynced}
use johnny.Memory.Working.Imported.{scores, import_items-read_all}
use johnny.Memory.Snapshot.{
  directory_of, version_of, not_json, or_raise, settled, snapshot, transaction, counts_of,
  SnapshotError, Directory, World, or_raise, written, manifest_of,
}
use johnny.Memory.Snapshot.Restore.{
  from, is_v2_of, manifest_json, restore_read, restore_from, restore, clear_working, read_counts,
  read_records, import_records, restore_tables, Redis, IsUp,
}
use johnny.Memory.Snapshot.Loaded.{
  eq_refl, then_returned, import_records-map, recorded, read_records-written,
}
use johnny.Memory.Snapshot.Rebuilt.{restored, restore_tables-recorded}

module _ {T W : Type 0} ⦃f : Float W⦄ (c : Codec T W) (laws : IsFaithful c) (m : WorkingMemory W)
    (redis : Redis W) (up : IsUp redis) where
  count_of-map : {R : Type 0} (p : R → Json) (rows : List R) → length (map p rows) ≡ length rows
  count_of-map p [] = refl
  count_of-map p (r ∷ rows) = omega (arith, count_of-map p rows)

  read_counts-recorded :
      (s : Stores W) (items : List (WorkingMemoryItem W))
      → read_counts c m true (recorded c s items) ≡ counts_of s items
  read_counts-recorded s items =
      rw
        (
          count_of-map (episode_dict c) s.episode.rows,
          count_of-map (fact_dict c) s.semantic_fact.rows,
          count_of-map (edge_dict c) s.semantic_edge.rows,
          count_of-map (skill_dict c) s.skill.rows,
          count_of-map (item_dict c) items,
          count_of-map (identity_dict c) s.identity.rows,
          count_of-map (drive_dict c) s.drive_state,
          count_of-map (mood_dict c) s.mood.rows,
          count_of-map (goal_dict c) s.goal.rows,
        )
        refl

  abbrev restored_world : Stores W → List (WorkingMemoryItem W) → World T W → World T W
  restored_world s items w = record {
    stores = restored s w.stores;
    working = import_items m items (clear m w.working);
    snapshots = w.snapshots;
  }

  cleared :
      (w : World T W)
      → clear_working c m redis true w ≡ (returned tt, record w { working = clear m w.working })
  cleared w = rw (up.deletes w.working) refl

  restore_read-recorded :
      (s : Stores W) (items : List (WorkingMemoryItem W)) (w : World T W)
      → IsValid s
      → restore_read c m redis true true (recorded c s items) w
        ≡ (returned (counts_of s items), restored_world s items w)
  unfolding restore_tables import_records
  restore_read-recorded s items w v =
      let r = recorded c s items in
      let t = record w { stores = restored s w.stores } in
      let u = record t { working = clear m w.working } in
      let end_ : Exec (World T W) SnapshotError Fields =
        λ (x : World T W). (returned (read_counts c m true r), x) in
      let importing = import_records c m redis r.working_items >> end_ in
      let done : Outcome SnapshotError Fields × World T W =
        (returned (counts_of s items), restored_world s items w) in
      then_returned (transaction (restore_tables c m true true r))
        (λ _. clear_working c m redis true >> importing) w t tt done
        (ap (settled w) (restore_tables-recorded c laws m s w.stores items v))
        (then_returned (clear_working c m redis true) (λ _. importing) t u tt done (cleared t)
          (then_returned (import_records c m redis r.working_items) (λ _. end_) u
            (restored_world s items w) tt done (import_records-map c laws m redis up items u)
            (ap (λ n. (returned n, restored_world s items w)) (read_counts-recorded s items))))

  restore_from-written :
      (now : ℕ) (s : Stores W) (items : List (WorkingMemoryItem W)) (d : Directory T)
      (w : World T W)
      → IsValid s
      → restore_from c m redis (written c m now s items d) true w
        ≡ (returned (counts_of s items), restored_world s items w)
  unfolding written restore_tables import_records
  restore_from-written now s items d w v =
      let files = written c m now s items d in
      let manifest = manifest_of c m now s items in
      let r = recorded c s items in
      let reading =
        λ (is_v2 : Bool). read_records c m files >>= restore_read c m redis true is_v2 in
      let done : Outcome SnapshotError Fields × World T W =
        (returned (counts_of s items), restored_world s items w) in
      then_returned (from c m (manifest_json c m files.manifest))
        (λ (j : Json). from c m (is_v2_of c m (version_of c j)) >>= reading) w w manifest done
        (ap (λ o. (or_raise not_json o, w)) (laws.loads-dumps manifest))
        (then_returned (read_records c m files) (restore_read c m redis true true) w w r done
          (read_records-written c laws m now s items d w) (restore_read-recorded s items w v))

  -- When every table satisfies its constraints, the two keys of the working memory are in step and the
  -- Redis of the restore refuses no command, a
  -- snapshot that is restored into any other stores returns the counts of what was saved, gives every
  -- table the same rows in the same order, sets each sequence behind the largest key, gives the
  -- working memory exactly the items that had not expired, and takes from the thoughts that were there
  -- their moods; `dumps`, `loads`, `isoformat` and `fromisoformat` are taken to be faithful.
  pub restore-snapshot :
      (label : String) (now : ℕ) (clock : W) (a b : World T W)
      → IsValid a.stores
      → IsSynced a.working
      → restore c m redis label true
          (record b { snapshots = (snapshot c m label now clock a).snapshots })
        ≡ (
          returned (counts_of a.stores (export_items m clock a.working).0),
          record {
            stores = restored a.stores b.stores;
            working = record {
              items = (export_items m clock a.working).1.items;
              salience = scores (export_items m clock a.working).1.items;
            };
            snapshots = (snapshot c m label now clock a).snapshots;
          },
        )
  unfolding restore snapshot export_items restore_tables import_records
  restore-snapshot label now clock a b v h =
      let kept = (prune_expired m clock a.working).1 in
      let items = read_all m kept in
      let d = written c m now a.stores items (directory_of (lookup label a.snapshots)) in
      let w = record b { snapshots = insert label d a.snapshots } in
      let back = prune-IsSynced m clock (read_all m a.working) a.working h in
      rw (lookup-insert label label d a.snapshots, eq_refl label)
        (restore_from-written now a.stores items (directory_of (lookup label a.snapshots)) w v
          ∙ ap
              (λ x. (
                returned (counts_of a.stores items),
                record {
                  stores = restored a.stores b.stores;
                  working = x;
                  snapshots = w.snapshots;
                },
              ))
              (import_items-read_all m kept b.working back))
