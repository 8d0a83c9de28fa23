-- ===== src/Memory/Snapshot/Tests.antt =====
-- Snapshots at concrete inputs.
use johnny.Prelude.{
  lookup, ◌==◌, if◌then◌else◌, false, ℕ, ◌≡◌, refl, arith, true, false, ap, sym, eq_iff, count,
  Bool-cases, inl, inr, ◌≤◌, ◌==◌, Option, none, some, [], ◌∷◌, String, zero, suc,
}
use johnny.Prelude.Texts.{length_text}
use johnny.Prelude.Exec.{returned}
use johnny.Prelude.Keys.{keys}
use johnny.Float.{Milli, milli_float}
use johnny.Json.{Json, int, num, end}
use johnny.Memory.Tables.{Stores, IsValid}
use johnny.Memory.Working.{WorkingMemory, WorkingMemoryItem, Stored, export_items}
use johnny.Memory.Working.Capacity.{IsSynced}
use johnny.Memory.Format.{Codec, IsFaithful, is_null}
use johnny.Memory.Snapshot.{directory_of, World, snapshot, counts_of}
use johnny.Memory.Snapshot.Restore.{restore, resync_sequences, Redis, IsUp}
use johnny.Memory.Snapshot.Rebuilt.{restored}
use johnny.Memory.Snapshot.Restored.{restore-snapshot}
use johnny.Memory.Snapshot.Unchanged.{restore-IsSafe, IsSafe, Committed}
use johnny.Memory.Snapshot.Fresh.{resync_sequences-IsFresh, IsFresh, FreshOrKept}
use johnny.Memory.Working.Imported.{scores}
use Prim.Native.String as Text
use johnny.Memory.Rows.{SemanticFactRow, MoodRow}

-- A line of a file is the value that was printed; a time is printed as that many marks.
abbrev marks : ℕ → String
marks zero = ""
marks (suc n) = Text.◌∷◌ "i" (marks n)

length_text-marks : (n : ℕ) → length_text (marks n) ≡ n
length_text-marks zero = refl
length_text-marks (suc n) = omega (arith, length_text-marks n)

abbrev of_milli : Milli → Json
of_milli none = num "NaN"
of_milli (some n) = int n

abbrev as_milli : Json → Option Milli
as_milli (int n) = some (some n)
as_milli (num s) = some none
as_milli _ = none

abbrev codec : Codec Json Milli
codec = record {
  dumps = λ j. j;
  loads = λ j. some j;
  strip = λ j. j;
  is_empty = λ j. false;
  isoformat = marks;
  fromisoformat = λ s. some (length_text s);
  of_float = of_milli;
  as_float = as_milli;
  as_whole = λ s. if s == "2.0" then some 2 else none;
}

of_milli-full : (w : Milli) → is_null (of_milli w) ≡ false
of_milli-full none = refl
of_milli-full (some n) = refl

as_milli-of_milli : (w : Milli) → as_milli (of_milli w) ≡ some w
as_milli-of_milli none = refl
as_milli-of_milli (some n) = refl

codec-IsFaithful : IsFaithful codec
codec-IsFaithful = record {
  loads-dumps = λ j. refl;
  strip-dumps = λ j. refl;
  dumps-full = λ j. refl;
  fromisoformat-isoformat = λ t. ap (λ n. some n) (length_text-marks t);
  of_float-full = of_milli-full;
  as_float-of_float = as_milli-of_milli;
}

abbrev fact_of : ℕ → String → SemanticFactRow Milli
fact_of id subject = record {
  id = id;
  subject = subject;
  predicate = "likes";
  object = "tea";
  confidence = some 500;
  source_episode_ids = 3 ∷ [];
  embedding = some 100 ∷ [];
  created_at = 1;
  updated_at = 2;
}

abbrev mood_row_of : ℕ → MoodRow Milli
mood_row_of id = record {
  id = id;
  ts = 4;
  valence = some 100;
  arousal = some 300;
  emotions = ("joy", some 200) ∷ [];
}

abbrev saved_stores : Stores Milli
saved_stores = record {
  episode = record {
    next_id = 9;
    rows =
        record {
          id = 3;
          ts = 1;
          kind = "interaction";
          content = "hello";
          actors = "dan" ∷ [];
          emotion_tags = [];
          salience = some 500;
          embedding = some 100 ∷ none ∷ [];
        }
        ∷ [];
  };
  semantic_fact = record { next_id = 9; rows = fact_of 2 "dan" ∷ fact_of 7 "johnny" ∷ [] };
  semantic_edge = record {
    next_id = 9;
    rows = record { id = 1; from_fact = 7; to_fact = 2; relation = "knows" } ∷ [];
  };
  skill = record { next_id = 1; rows = [] };
  identity = record { next_id = 1; rows = [] };
  drive_state =
      record {
        drive = "energy";
        value = some 400;
        setpoint = some 200;
        accrual_rate = some 10;
        decay_rate = some 5;
        threshold = some 700;
        updated_at = 3;
      }
      ∷ [];
  mood = record { next_id = 6; rows = mood_row_of 5 ∷ [] };
  goal = record {
    next_id = 4;
    rows =
        record {
          id = 2;
          source = "curiosity";
          description = "learn";
          priority = some 900;
          status = "resolved";
          plan = end;
          outcome = end;
          created_at = 1;
          resolved_at = some 2;
        }
        ∷ [];
  };
  thought = [];
}

saved-IsValid : IsValid saved_stores
saved-IsValid = record {
  episodes = (refl, tt, tt);
  facts = (refl, (refl, tt), (refl, tt, tt));
  edges = (refl, tt, tt);
  skills = tt;
  identities = tt;
  drives = (refl, tt, tt);
  moods = (refl, tt, tt);
  goals = (refl, tt, tt);
}

abbrev later_stores : Stores Milli
later_stores = record {
  episode = record { next_id = 4; rows = [] };
  semantic_fact = record { next_id = 9; rows = fact_of 8 "dan" ∷ [] };
  semantic_edge = record { next_id = 9; rows = [] };
  skill = record { next_id = 1; rows = [] };
  identity = record { next_id = 1; rows = [] };
  drive_state = [];
  mood = record { next_id = 7; rows = mood_row_of 6 ∷ [] };
  goal = record { next_id = 4; rows = [] };
  thought = record { id = 1; ts = 2; text = "hm"; mood_id = some 6 } ∷ [];
}

abbrev memory : WorkingMemory Milli
memory = record {
  capacity = 3;
  decay_factor = some 500;
  floor = some 200;
  default_ttl = some 0;
  ascending = λ scores. keys scores;
}

abbrev note_of : String → Option Milli → WorkingMemoryItem Milli
note_of id at = record {
  id = id;
  content = "tea";
  kind = "note";
  salience = some 600;
  created_at = some 0;
  expires_at = at;
}

abbrev held : Stored Milli
held = record {
  items = ("m", note_of "m" none) ∷ ("n", note_of "n" (some (some 2))) ∷ [];
  salience = ("m", some 600) ∷ ("n", some 600) ∷ [];
}

two_names : (j : String) → count (λ i. i == j) ("m" ∷ "n" ∷ []) ≤ 1
two_names j = elim (Bool-cases ("m" == j)) [
  | inl e ↦ let same = (eq_iff "m" j).0 e in rw (sym same) (omega arith)
  | inr e ↦ rw e (ground arith)
]

held-IsSynced : IsSynced held
held-IsSynced = (refl, two_names, (refl, (refl, tt)))

abbrev saved : World Json Milli
saved = record { stores = saved_stores; working = held; snapshots = [] }

abbrev later : World Json Milli
later = record {
  stores = later_stores;
  working = record { items = []; salience = [] };
  snapshots = [];
}

abbrev calm_redis : Redis Milli
calm_redis = record {
  delete_error = λ s. none;
  hset_error = λ s item. none;
  zadd_error = λ s item. none;
}

calm_redis-IsUp : IsUp calm_redis
calm_redis-IsUp = record { deletes = λ s. refl; hsets = λ s item. refl; zadds = λ s item. refl }

restore-snapshot_example :
    restore codec memory calm_redis "monday" true
      (record later { snapshots = (snapshot codec memory "monday" 5 (some 3) saved).snapshots })
    ≡ (
      returned (counts_of saved_stores (export_items memory (some 3) held).0),
      record {
        stores = restored saved_stores later_stores;
        working = record {
          items = (export_items memory (some 3) held).1.items;
          salience = scores (export_items memory (some 3) held).1.items;
        };
        snapshots = (snapshot codec memory "monday" 5 (some 3) saved).snapshots;
      },
    )
restore-snapshot_example =
    restore-snapshot codec codec-IsFaithful memory calm_redis calm_redis-IsUp "monday" 5 (some 3)
      saved later saved-IsValid held-IsSynced

-- Redis takes the clearing and refuses the first item.
abbrev full_redis : Redis Milli
full_redis = record {
  delete_error = λ s. none;
  hset_error = λ s item. some "out of memory";
  zadd_error = λ s item. none;
}

restore-IsSafe_example :
    let w = snapshot codec memory "monday" 5 (some 3) saved in
    IsSafe
      (Committed codec memory full_redis (directory_of (lookup "monday" w.snapshots)) true w.stores)
      w
      (restore codec memory full_redis "monday" true w)
restore-IsSafe_example =
    restore-IsSafe codec memory full_redis "monday" true
      (snapshot codec memory "monday" 5 (some 3) saved)

resync_sequences-IsFresh_example :
    let t = resync_sequences codec memory false later_stores in
    IsFresh (λ r. r.id) t.episode
    × IsFresh (λ r. r.id) t.semantic_fact
    × IsFresh (λ r. r.id) t.semantic_edge
    × IsFresh (λ r. r.id) t.skill
    × FreshOrKept codec memory false later_stores t
resync_sequences-IsFresh_example = resync_sequences-IsFresh codec memory false later_stores
