-- ===== src/Memory/Format.antt =====
-- The records of a snapshot (brain/memory/snapshot.py): the projections of the rows to JSON and back.
-- Of the `json` and `datetime` modules the code uses `dumps`, `loads`, `isoformat` and `fromisoformat`.
-- A record is read when it has every column and no other; the code would also take a record without a
-- column that the database gives a default.
pub mod Records
pub mod States
use johnny.Prelude.{
  ℕ, String, Bool, true, false, not, Option, none, some, List, [], ◌∷◌, Dict, map, ◌==◌, ◌≡◌,
  if◌then◌else◌, any,
}
use johnny.Json.{Json, null, int, str, arr, obj, Items, nil, cons, Fields, end, field}
use johnny.Memory.Rows.{
  EpisodeRow, SemanticFactRow, SemanticEdgeRow, SkillRow, IdentityRow, MoodRow,
}
use johnny.Memory.Working.{WorkingMemoryItem}
use johnny.Goals.Store.{GoalRow}
use johnny.Drives.Engine.{DriveReading}

abbrev pub is_null : Json → Bool
is_null null = true
is_null _ = false

-- `T` are the texts that a file has as its lines.
pub record Codec (T W : Type 0) : Type 0 where
  pub dumps : Json → T
  pub loads : T → Option Json
  pub strip : T → T
  pub is_empty : T → Bool
  pub isoformat : ℕ → String
  pub fromisoformat : String → Option ℕ
  pub of_float : W → Json
  pub as_float : Json → Option W
  -- The natural number that the text of a float denotes, if it denotes one.
  pub as_whole : String → Option ℕ

-- What is printed is one line that is read back as it was.
pub record IsFaithful {T W : Type 0} (c : Codec T W) : Type 0 where
  pub loads-dumps : (j : Json) → c.loads (c.dumps j) ≡ some j
  pub strip-dumps : (j : Json) → c.strip (c.dumps j) ≡ c.dumps j
  pub dumps-full : (j : Json) → c.is_empty (c.dumps j) ≡ false
  pub fromisoformat-isoformat : (t : ℕ) → c.fromisoformat (c.isoformat t) ≡ some t
  pub of_float-full : (w : W) → is_null (c.of_float w) ≡ false
  pub as_float-of_float : (w : W) → c.as_float (c.of_float w) ≡ some w

infixl 10 ◌>>=◌
abbrev pub ◌>>=◌ : {A B : Type 0} → Option A → (A → Option B) → Option B
none >>= g = none
some a >>= g = g a

abbrev pub column : String → Fields → Option Json
column k end = none
column k (field j v d) = if j == k then some v else column k d

abbrev pub names : Fields → List String
names end = []
names (field j v d) = j ∷ names d

-- No keyword argument but the columns.
abbrev pub only : List String → List String → Bool
only columns ks = not (any (λ k. not (any (λ c. c == k) columns)) ks)

abbrev pub record_of : List String → Json → Option Fields
record_of columns (obj d) = if only columns (names d) then some d else none
record_of columns _ = none

abbrev pub as_nat : Json → Option ℕ
as_nat (int n) = some n
as_nat _ = none

abbrev pub as_text : Json → Option String
as_text (str s) = some s
as_text _ = none

abbrev pub as_fields : Json → Option Fields
as_fields (obj d) = some d
as_fields _ = none

abbrev pub items_of : {A : Type 0} → (A → Json) → List A → Items
items_of g [] = nil
items_of g (x ∷ xs) = cons (g x) (items_of g xs)

abbrev pub list_of : {A : Type 0} → (Json → Option A) → Items → Option (List A)
list_of r nil = some []
list_of r (cons j js) = let rest = list_of r js in r j >>= λ x. rest >>= λ xs. some (x ∷ xs)

abbrev pub as_list : {A : Type 0} → (Json → Option A) → Json → Option (List A)
as_list r (arr js) = list_of r js
as_list r _ = none

abbrev pub fields_of : {A : Type 0} → (A → Json) → Dict A → Fields
fields_of g [] = end
fields_of g ((k, x) ∷ d) = field k (g x) (fields_of g d)

abbrev pub dict_of : {A : Type 0} → (Json → Option A) → Fields → Option (Dict A)
dict_of r end = some []
dict_of r (field k j d) = let rest = dict_of r d in r j >>= λ x. rest >>= λ xs. some ((k, x) ∷ xs)

abbrev pub as_dict : {A : Type 0} → (Json → Option A) → Json → Option (Dict A)
as_dict r (obj d) = dict_of r d
as_dict r _ = none

module _ {T W : Type 0} (c : Codec T W) where
  abbrev pub time : ℕ → Json
  time t = str (c.isoformat t)

  abbrev pub as_time : Json → Option ℕ
  as_time j = as_text j >>= c.fromisoformat

  abbrev pub optional_time : Option ℕ → Json
  optional_time none = null
  optional_time (some t) = time t

  abbrev pub as_optional_time : Json → Option (Option ℕ)
  as_optional_time null = some none
  as_optional_time j = as_time j >>= λ t. some (some t)

  abbrev pub optional_float : Option W → Json
  optional_float none = null
  optional_float (some w) = c.of_float w

  abbrev pub as_optional_float : Json → Option (Option W)
  as_optional_float j = if is_null j then some none else (c.as_float j >>= λ w. some (some w))
