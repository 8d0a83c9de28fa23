-- ===== src/Memory/Snapshot/Unchanged.antt =====
-- brain/memory/snapshot.py: what a restore that fails leaves.
use johnny.Prelude.{
  String, Bool, true, false, ◌≡◌, ◌⊎◌, inl, inr, refl, Option, none, some, List, [], ◌∷◌, lookup,
}
use johnny.Prelude.Exec.{Outcome, returned, raised, Exec, ◌>>=◌, ◌>>◌}
use johnny.Float.{Float}
use johnny.Json.{Json, Fields}
use johnny.Memory.Tables.{Stores}
use johnny.Memory.Format.{Codec}
use johnny.Memory.Format.States.{item_row}
use johnny.Memory.Working.{WorkingMemory, WorkingMemoryItem, Stored}
use johnny.Memory.Snapshot.{
  SnapshotError, bad_record, redis_failed, Directory, World, Records, transaction, settled,
  version_of, directory_of,
}
use johnny.Memory.Snapshot.Restore.{
  Redis, read_records, records_of, restore_tables, restore_read, restore_from, restore,
  import_records, import_one, clear_working, clear_or_raise, then_sent, after_hset,
  persist_or_raise, manifest_json, is_v2_of, from, read_counts,
}

-- What can only be raised once the transaction is committed.
abbrev pub IsLate : SnapshotError → Type 0
IsLate bad_record = Unit {0}
IsLate (redis_failed e) = Unit {0}
IsLate _ = ⊥

-- A call on the working memory raises only for Redis.
abbrev LateOnly : Outcome SnapshotError (Unit {0}) → Type 0
LateOnly (returned _) = Unit {0}
LateOnly (raised e) = IsLate e

module _ {T W : Type 0} where
  -- The tables are as a commit left them, and no snapshot has changed.
  abbrev Kept : (Stores W → Type 0) → World T W → World T W → Type 0
  Kept P w t = P t.stores × (t.snapshots ≡ w.snapshots)

  -- A part of a restore that began in the world `w` left it, or failed after the commit.
  abbrev pub IsSafe :
      {A : Type 0} → (Stores W → Type 0) → World T W → Outcome SnapshotError A × World T W → Type 0
  IsSafe P w (returned a, t) = Unit
  IsSafe P w (raised e, t) = (t ≡ w) ⊎ (IsLate e × P t.stores × (t.snapshots ≡ w.snapshots))

  IsSafe-more :
      {A : Type 0} (P Q : Stores W → Type 0) (w : World T W)
      (z : Outcome SnapshotError A × World T W)
      → ((s : Stores W) → P s → Q s)
      → IsSafe P w z
      → IsSafe Q w z
  IsSafe-more P Q w (returned a, t) h k = tt
  IsSafe-more P Q w (raised e, t) h (inl k) = inl k
  IsSafe-more P Q w (raised e, t) h (inr k) = inr (k.0, h t.stores k.1, k.2)

module _ {T W : Type 0} ⦃f : Float W⦄ (c : Codec T W) (m : WorkingMemory W) (redis : Redis W) where
  -- A step that only computes an outcome.
  then-IsSafe :
      {A B : Type 0} (P : Stores W → Type 0) (w : World T W) (r : Outcome SnapshotError A)
      (g : A → Exec (World T W) SnapshotError B)
      → ((a : A) → r ≡ returned a → IsSafe P w (g a w))
      → IsSafe P w (((λ (s : World T W). (r, s)) >>= g) w)
  then-IsSafe P w (returned a) g h = h a refl
  then-IsSafe P w (raised e) g h = inl refl

  working-IsSafe :
      {B : Type 0} (P : Stores W → Type 0) (w v : World T W)
      (z : Outcome SnapshotError (Unit {0}) × Stored W)
      (g : Unit {0} → Exec (World T W) SnapshotError B)
      → LateOnly z.0
      → Kept P w v
      → ((t : World T W) → Kept P w t → IsSafe P w (g tt t))
      → IsSafe P w (((λ (x : World T W). (z.0, record x { working = z.1 })) >>= g) v)
  working-IsSafe P w v (returned _, s) g late k h = h (record v { working = s }) k
  working-IsSafe P w v (raised e, s) g late k h = inr (late, k.0, k.1)

  then_sent-LateOnly : (e : Option String) (s t : Stored W) → LateOnly (then_sent c m redis e s t).0
  then_sent-LateOnly none s t = tt
  then_sent-LateOnly (some e) s t = tt

  persist-LateOnly :
      (item : WorkingMemoryItem W) (s : Stored W) → LateOnly (persist_or_raise c m redis item s).0
  persist-LateOnly item s = at (redis.hset_error s item)
    where
      at : (e : Option String) → LateOnly (after_hset c m redis e item s).0
      at none = then_sent-LateOnly _ _ _
      at (some e) = tt

  import_records-IsSafe :
      {B : Type 0} (P : Stores W → Type 0) (w v : World T W) (js : List Json)
      (g : Unit {0} → Exec (World T W) SnapshotError B)
      → Kept P w v
      → ((t : World T W) → Kept P w t → IsSafe P w (g tt t))
      → IsSafe P w ((import_records c m redis js >>= g) v)
  unfolding import_records
  import_records-IsSafe P w v [] g k h = h v k
  import_records-IsSafe P w v (j ∷ js) g k h =
      at (item_row c j) (λ t kt. import_records-IsSafe P w t js g kt h)
    where
      at :
          (o : Option (WorkingMemoryItem W))
          → ((t : World T W) → Kept P w t → IsSafe P w ((import_records c m redis js >>= g) t))
          → IsSafe P w (((import_one c m redis o >> import_records c m redis js) >>= g) v)
      at none next = inr (tt, k.0, k.1)
      at (some item) next =
          one (persist_or_raise c m redis item v.working) (persist-LateOnly item v.working) next
        where
          one :
              (z : Outcome SnapshotError (Unit {0}) × Stored W)
              → LateOnly z.0
              → ((t : World T W) → Kept P w t → IsSafe P w ((import_records c m redis js >>= g) t))
              → IsSafe P w (
                  (((λ (x : World T W). (z.0, record x { working = z.1 }))
                        >> import_records c m redis js)
                      >>= g)
                    v)
          one (returned _, s) late next = next (record v { working = s }) k
          one (raised e, s) late next = inr (late, k.0, k.1)

  clear-IsSafe :
      {B : Type 0} (P : Stores W → Type 0) (replace : Bool) (w v : World T W)
      (g : Unit {0} → Exec (World T W) SnapshotError B)
      → Kept P w v
      → ((t : World T W) → Kept P w t → IsSafe P w (g tt t))
      → IsSafe P w ((clear_working c m redis replace >>= g) v)
  clear-IsSafe P false w v g k h = h v k
  clear-IsSafe P true w v g k h =
      working-IsSafe P w v (clear_or_raise c m redis v.working) g
        (then_sent-LateOnly (redis.delete_error v.working) v.working _) k h

  -- What fails within the transaction is rolled back.
  transaction-IsSafe :
      {B : Type 0} (w : World T W) (body : Exec (Stores W) SnapshotError (Unit {0}))
      (g : Unit {0} → Exec (World T W) SnapshotError B)
      → ((t : World T W)
          → Kept (λ s. body w.stores ≡ (returned tt, s)) w t
          → IsSafe (λ s. body w.stores ≡ (returned tt, s)) w (g tt t))
      → IsSafe (λ s. body w.stores ≡ (returned tt, s)) w ((transaction body >>= g) w)
  transaction-IsSafe w body g h = at (body w.stores) refl
    where
      at :
          (z : Outcome SnapshotError (Unit {0}) × Stores W)
          → body w.stores ≡ z
          → IsSafe
              (λ s. body w.stores ≡ (returned tt, s))
              w
              (((λ (v : World T W). settled v z) >>= g) w)
      at (returned _, s) e = h (record w { stores = s }) (e, refl)
      at (raised e, s) _ = inl refl

  restore_read-IsSafe :
      (replace is_v2 : Bool) (r : Records) (w : World T W)
      → IsSafe
          (λ s. restore_tables c m replace is_v2 r w.stores ≡ (returned tt, s))
          w
          (restore_read c m redis replace is_v2 r w)
  unfolding restore_tables import_records
  restore_read-IsSafe replace is_v2 r w =
      let P = λ (s : Stores W). restore_tables c m replace is_v2 r w.stores ≡ (returned tt, s) in
      let end_ : Exec (World T W) SnapshotError Fields =
        λ (x : World T W). (returned (read_counts c m is_v2 r), x) in
      let importing = import_records c m redis r.working_items >> end_ in
      transaction-IsSafe w (restore_tables c m replace is_v2 r)
        (λ _. clear_working c m redis replace >> importing)
        (λ t k.
          clear-IsSafe P replace w t (λ _. importing) k
            (λ u ku. import_records-IsSafe P w u r.working_items (λ _. end_) ku (λ _ _. tt)))

  -- What a restore from these files commits
  abbrev pub Committed : Directory T → Bool → Stores W → Stores W → Type 0
  Committed d replace before after =
      (r : Records) × (is_v2 : Bool) × ((records_of c m d tt).0 ≡ returned r)
      × (restore_tables c m replace is_v2 r before ≡ (returned tt, after))

  restore_from-IsSafe :
      (d : Directory T) (replace : Bool) (w : World T W)
      → IsSafe (Committed d replace w.stores) w (restore_from c m redis d replace w)
  unfolding restore_tables import_records
  restore_from-IsSafe d replace w =
      let P = Committed d replace w.stores in
      let reading = λ (is_v2 : Bool). read_records c m d >>= restore_read c m redis replace is_v2 in
      then-IsSafe P w (manifest_json c m d.manifest)
        (λ (j : Json). from c m (is_v2_of c m (version_of c j)) >>= reading)
        (λ j _. then-IsSafe P w (is_v2_of c m (version_of c j)) reading (λ is_v2 _.
          then-IsSafe P w (records_of c m d tt).0 (restore_read c m redis replace is_v2) (λ r e.
            IsSafe-more (λ s. restore_tables c m replace is_v2 r w.stores ≡ (returned tt, s)) P w _
              (λ s k. (r, is_v2, e, k)) (restore_read-IsSafe replace is_v2 r w))))

  -- A restore that raises leaves the tables, the working memory and the snapshots as they were: when
  -- the manifest is missing or of another version, when a file is not JSON or a row has the wrong
  -- shape, and when a row breaks a constraint after others were written. The exception is a failure
  -- after the commit, by a record that is no working-memory item or by a command that Redis refuses:
  -- then the tables are those of the whole restore, and the snapshots as they were.
  pub restore-IsSafe :
      (label : String) (replace : Bool) (w : World T W)
      → IsSafe
          (Committed (directory_of (lookup label w.snapshots)) replace w.stores)
          w
          (restore c m redis label replace w)
  unfolding restore restore_tables import_records
  restore-IsSafe label replace w =
      restore_from-IsSafe (directory_of (lookup label w.snapshots)) replace w
