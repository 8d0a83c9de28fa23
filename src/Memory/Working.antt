-- ===== src/Memory/Working.antt =====
-- brain/memory/working.py: the bounded working set, a hash of the items and a sorted set of saliences.
pub mod Capacity
pub mod Imported
pub mod Floor
pub mod Synced
use johnny.Prelude.{
  ℕ, String, Bool, true, false, Option, none, some, List, [], ◌∷◌, ◌++◌, ◌-◌, Dict, insert, remove,
  leb, map, length, take, if◌then◌else◌,
}
use johnny.Prelude.Sort.{sort_desc}
use johnny.Float.{Float, clamp01}

pub record WorkingMemoryItem (W : Type 0) : Type 0 where
  pub id : String
  pub content : String
  pub kind : String
  pub salience : W
  pub created_at : W
  pub expires_at : Option W

-- The two keys of the namespace in Redis, the hash `items` and the sorted set `salience`. Fields are
-- listed in the order they were first set; items are kept as records, not as their JSON.
pub record Stored (W : Type 0) : Type 0 where
  pub items : Dict (WorkingMemoryItem W)
  pub salience : Dict W

pub record WorkingMemory (W : Type 0) : Type 0 where
  pub capacity : ℕ
  pub decay_factor : W
  pub floor : W
  pub default_ttl : W
  -- The members of a sorted set in ascending order of score, the range `zrange` counts in.
  pub ascending : Dict W → List String

abbrev pub value_of : {A B : Type 0} → A × B → B
value_of (k, v) = v

module _ {W : Type 0} ⦃f : Float W⦄ (m : WorkingMemory W) where
  -- `_persist`: `hset` and `zadd`
  abbrev pub persist : WorkingMemoryItem W → Stored W → Stored W
  persist item s = record {
    items = insert item.id item s.items;
    salience = insert item.id item.salience s.salience;
  }

  -- `_evict`: `hdel` and `zrem`
  abbrev pub evict : String → Stored W → Stored W
  evict id s = record { items = remove id s.items; salience = remove id s.salience }

  -- `_read_all`
  abbrev pub read_all : Stored W → List (WorkingMemoryItem W)
  read_all s = map value_of s.items

  abbrev pub expired : W → Option W → Bool
  expired now none = false
  expired now (some at) = f.le at now

  -- The items that have expired among those read, and the store without them.
  unfoldable pub prune :
      W → List (WorkingMemoryItem W) → Stored W → List (WorkingMemoryItem W) × Stored W
  prune now [] s = ([], s)
  prune now (item ∷ items) s =
      let e = expired now item.expires_at in
      let (gone, t) = prune now items (if e then evict item.id s else s) in
      (if e then item ∷ gone else gone, t)

  -- `_prune_expired`
  abbrev pub prune_expired : W → Stored W → List (WorkingMemoryItem W) × Stored W
  prune_expired now s = prune now (read_all s) s

  unfoldable pub evict_all : List String → Stored W → Stored W
  evict_all [] s = s
  evict_all (id ∷ ids) s = evict_all ids (evict id s)

  -- `_trim_to_capacity`
  unfoldable pub trim_to_capacity : Stored W → Stored W
  unfolding evict_all
  trim_to_capacity s =
      if leb (length s.salience) m.capacity
      then s
      else evict_all (take (length s.salience - m.capacity) (m.ascending s.salience)) s

  abbrev pub ttl_or_default : Option W → W
  ttl_or_default none = m.default_ttl
  ttl_or_default (some ttl) = ttl

  unfoldable pub stamped : W → Option W → WorkingMemoryItem W → WorkingMemoryItem W
  unfolding clamp01
  stamped now ttl item = record item {
    salience = clamp01 item.salience;
    created_at = now;
    expires_at =
        if f.lt f.zero (ttl_or_default ttl) then some (f.add now (ttl_or_default ttl)) else none;
  }

  unfoldable pub put :
      W → WorkingMemoryItem W → Option W → Stored W → WorkingMemoryItem W × Stored W
  unfolding prune stamped trim_to_capacity
  put now item ttl s =
      let stored = stamped now ttl item in
      (stored, trim_to_capacity (persist stored (prune_expired now s).1))

  -- Tuples compare by their first difference; no salience or time of an item is NaN.
  abbrev pub less : W × W → W × W → Bool
  less (a, b) (c, d) = if f.lt a c then true else (if f.lt c a then false else f.lt b d)

  unfoldable pub contents : W → Stored W → List (WorkingMemoryItem W) × Stored W
  unfolding prune
  contents now s =
      let t = (prune_expired now s).1 in
      (sort_desc less (λ i. (i.salience, i.created_at)) (read_all t), t)

  -- The sweep of `decay` over the items read, with those it evicts.
  unfoldable pub sweep :
      List (WorkingMemoryItem W) → Stored W → List (WorkingMemoryItem W) × Stored W
  sweep [] s = ([], s)
  sweep (item ∷ items) s =
      let decayed = f.mul item.salience m.decay_factor in
      let low = f.lt decayed m.floor in
      let (gone, t) =
        sweep items
          (if low then evict item.id s else persist (record item { salience = decayed }) s) in
      (if low then item ∷ gone else gone, t)

  unfoldable pub decay : W → Stored W → List (WorkingMemoryItem W) × Stored W
  unfolding prune sweep
  decay now s =
      let (gone, t) = prune_expired now s in let (low, u) = sweep (read_all t) t in (gone ++ low, u)

  abbrev pub count_items : Stored W → ℕ
  count_items s = length s.salience

  abbrev pub clear : Stored W → Stored W
  clear s = record { items = []; salience = [] }

  unfoldable pub export_items : W → Stored W → List (WorkingMemoryItem W) × Stored W
  unfolding prune
  export_items now s = let t = (prune_expired now s).1 in (read_all t, t)

  unfoldable pub import_items : List (WorkingMemoryItem W) → Stored W → Stored W
  import_items [] s = s
  import_items (item ∷ items) s = import_items items (persist item s)
