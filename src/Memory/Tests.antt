-- ===== src/Memory/Tests.antt =====
-- Working memory at concrete inputs.
use johnny.Prelude.{arith, ◌≡◌, ◌≤◌, refl, Option, none, some, List, [], ◌∷◌, ℕ, lookup}
use johnny.Prelude.Keys.{keys}
use johnny.Float.{Milli, milli_float}
use johnny.Memory.Working.{WorkingMemoryItem, Stored, WorkingMemory, put, decay, count_items}
use johnny.Memory.Working.Capacity.{IsSynced, put-bounded}
use johnny.Memory.Working.Synced.{
  MemoryMove, putting, reading, decaying, perform_all, perform_all-IsSynced,
}

-- A memory for one item, whose sorted set lists its members as they came.
abbrev small : WorkingMemory Milli
small = record {
  capacity = 1;
  decay_factor = some 500;
  floor = some 200;
  default_ttl = some 0;
  ascending = λ scores. keys scores;
}

abbrev memory_of : Option ℕ → WorkingMemoryItem Milli
memory_of salience = record {
  id = "m";
  content = "tea";
  kind = "note";
  salience = salience;
  created_at = some 0;
  expires_at = none;
}

abbrev news : WorkingMemoryItem Milli
news = record (memory_of (some 900)) { id = "n" }

abbrev held : Stored Milli
held = record { items = ("m", memory_of (some 600)) ∷ []; salience = ("m", some 600) ∷ [] }

held-IsSynced : IsSynced held
held-IsSynced = (refl, λ j. ground arith, (refl, tt))

put-bounded_example : count_items small (put small (some 5) news none held).1 ≤ 1
put-bounded_example = put-bounded small (λ scores h p. refl) (some 5) news none held held-IsSynced

held-decayed : lookup "m" (decay small (some 5) held).1.salience ≡ some (some 300)
unfolding decay
held-decayed = refl

abbrev some_moves : List (MemoryMove Milli)
some_moves = putting (some 1) news none ∷ decaying (some 2) ∷ reading (some 3) ∷ []

perform_all-IsSynced_example : IsSynced (perform_all small some_moves held)
perform_all-IsSynced_example = perform_all-IsSynced small some_moves held held-IsSynced
