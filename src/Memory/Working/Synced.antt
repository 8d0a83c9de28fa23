-- ===== src/Memory/Working/Synced.antt =====
-- The hash and the sorted set of the working memory stay in step, whatever is called in which order.
use johnny.Prelude.{arith, refl, Option, List, [], ◌∷◌}
use johnny.Float.{Float}
use johnny.Memory.Working.{
  WorkingMemoryItem, Stored, WorkingMemory, put, contents, decay, clear, export_items, import_items,
  read_all, prune_expired,
}
use johnny.Memory.Working.Capacity.{
  IsSynced, prune-IsSynced, sweep-IsSynced, import-IsSynced, stored-IsSynced,
}

-- The calls that others make.
pub data MemoryMove (W : Type 0) : Type 0 where
  putting : W → WorkingMemoryItem W → Option W → MemoryMove W
  reading : W → MemoryMove W
  decaying : W → MemoryMove W
  clearing : MemoryMove W
  exporting : W → MemoryMove W
  importing : List (WorkingMemoryItem W) → MemoryMove W

module _ {W : Type 0} ⦃f : Float W⦄ (m : WorkingMemory W) where
  unfoldable pub perform : MemoryMove W → Stored W → Stored W
  unfolding put contents decay export_items import_items
  perform (putting now item ttl) s = (put m now item ttl s).1
  perform (reading now) s = (contents m now s).1
  perform (decaying now) s = (decay m now s).1
  perform clearing s = clear m s
  perform (exporting now) s = (export_items m now s).1
  perform (importing items) s = import_items m items s

  unfoldable pub perform_all : List (MemoryMove W) → Stored W → Stored W
  unfolding perform
  perform_all [] s = s
  perform_all (move ∷ moves) s = perform_all moves (perform move s)

  perform-IsSynced : (move : MemoryMove W) (s : Stored W) → IsSynced s → IsSynced (perform move s)
  unfolding perform put contents decay export_items
  perform-IsSynced (putting now item ttl) s h = stored-IsSynced m now item ttl s h
  perform-IsSynced (reading now) s h = prune-IsSynced m now (read_all m s) s h
  perform-IsSynced (decaying now) s h =
      let t = (prune_expired m now s).1 in
      sweep-IsSynced m (read_all m t) t (prune-IsSynced m now (read_all m s) s h)
  perform-IsSynced clearing s h = (refl, λ j. omega arith, tt)
  perform-IsSynced (exporting now) s h = prune-IsSynced m now (read_all m s) s h
  perform-IsSynced (importing items) s h = import-IsSynced m items s h

  -- Any sequence of puts, reads, decays, clears, exports and imports leaves the hash and the sorted set
  -- with the same members, each once and each item under its own id, if they were so before, in
  -- whatever order the sorted set lists its members.
  pub perform_all-IsSynced :
      (moves : List (MemoryMove W)) (s : Stored W) → IsSynced s → IsSynced (perform_all moves s)
  unfolding perform_all
  perform_all-IsSynced [] s h = h
  perform_all-IsSynced (move ∷ moves) s h =
      perform_all-IsSynced moves (perform move s) (perform-IsSynced move s h)
