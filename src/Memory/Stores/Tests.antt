-- ===== src/Memory/Stores/Tests.antt =====
-- Skills at concrete inputs, in thousandths.
use johnny.Prelude.{ℕ, true, false, some, List, [], ◌∷◌, All, ◌*◌, ◌/◌, String}
use johnny.Float.{Milli, milli_float}
use johnny.Json.{end}
use johnny.Memory.Rows.{SkillRow}
use johnny.Memory.Tables.{Serial}
use johnny.Memory.Stores.{Skill}
use johnny.Memory.Stores.Reinforced.{
  SkillMove, stored, reinforcing, learn_all, IsExact, learn_all-IsExact,
}

abbrev blank : String → List Milli
blank s = []

abbrev permille : ℕ → ℕ → Milli
permille a b = some (a * 1000 / b)

-- More successes than uses, as a caller may have it
abbrev brewing : Skill Milli
brewing = record {
  name = "brew";
  description = "tea";
  recipe = end;
  success_rate = some 0;
  uses = 2;
  successes = 3;
}

abbrev some_moves : List (SkillMove Milli)
some_moves = stored brewing 1 ∷ reinforcing 1 false 2 ∷ reinforcing 7 true 3 ∷ stored brewing 4 ∷ []

abbrev no_skills : Serial (SkillRow Milli)
no_skills = record { next_id = 1; rows = [] }

learn_all-IsExact_example :
    All (IsExact blank permille) (learn_all blank permille some_moves no_skills).rows
learn_all-IsExact_example = learn_all-IsExact blank permille some_moves no_skills tt
