-- ===== src/Memory/Stores/Reinforced.antt =====
-- brain/memory/procedural.py: the record of how well a skill has worked, over any calls.
use johnny.Prelude.{
  arith, ℕ, ◌≤◌, ◌≡◌, refl, String, Bool, List, [], ◌∷◌, ◌==◌, any, map, eqb, All, All-append,
  Bool-cases, inl, inr,
}
use johnny.Float.{Float}
use johnny.Memory.Rows.{SkillRow}
use johnny.Memory.Tables.{Serial}
use johnny.Memory.Stores.{Skill, new_skill, relearned, store_skill, reinforced, reinforce}

pub data SkillMove (W : Type 0) : Type 0 where
  stored : Skill W → ℕ → SkillMove W
  reinforcing : ℕ → Bool → ℕ → SkillMove W

module _ {W : Type 0} ⦃f : Float W⦄ (embed : String → List W) (ratio : ℕ → ℕ → W) where
  unfoldable pub learn : SkillMove W → Serial (SkillRow W) → Serial (SkillRow W)
  unfolding store_skill reinforce
  learn (stored skill now) table = store_skill embed ratio skill now table
  learn (reinforcing id success now) table = (reinforce embed ratio id success now table).1

  unfoldable pub learn_all : List (SkillMove W) → Serial (SkillRow W) → Serial (SkillRow W)
  unfolding learn
  learn_all [] table = table
  learn_all (move ∷ moves) table = learn_all moves (learn move table)

  -- The successes are among the uses, and the rate of a skill that was used is their quotient.
  abbrev pub IsExact : SkillRow W → Type 0
  IsExact row =
      (row.successes ≤ row.uses) × (1 ≤ row.uses → row.success_rate ≡ ratio row.successes row.uses)

  new_skill-IsExact : (skill : Skill W) (now id : ℕ) → IsExact (new_skill embed ratio skill now id)
  new_skill-IsExact skill now id = (ground arith, λ used. ground (arith, used))

  relearned-IsExact :
      (skill : Skill W) (now : ℕ) (row : SkillRow W)
      → IsExact row
      → IsExact (relearned embed ratio skill now row)
  relearned-IsExact skill now row h = elim (Bool-cases (row.name == skill.name)) [
    | inl e ↦ rw e h
    | inr e ↦ rw e h
  ]

  reinforced-IsExact :
      (id : ℕ) (success : Bool) (now : ℕ) (row : SkillRow W)
      → IsExact row
      → IsExact (reinforced embed ratio id success now row)
  reinforced-IsExact id success now row h = elim (Bool-cases (eqb row.id id)) [
    | inl e ↦ rw e (ground (arith, h.0), λ _. refl)
    | inr e ↦ rw e h
  ]

  map-IsExact :
      (g : SkillRow W → SkillRow W)
      → ((row : SkillRow W) → IsExact row → IsExact (g row))
      → (rows : List (SkillRow W)) → All IsExact rows
      → All IsExact (map g rows)
  map-IsExact g h [] k = tt
  map-IsExact g h (row ∷ rows) k = (h row k.0, map-IsExact g h rows k.1)

  learn-IsExact :
      (move : SkillMove W) (table : Serial (SkillRow W))
      → All IsExact table.rows
      → All IsExact (learn move table).rows
  unfolding learn store_skill reinforce
  learn-IsExact (stored skill now) table h =
      elim (Bool-cases (any (λ row. row.name == skill.name) table.rows)) [
        | inl e ↦ rw e (
            map-IsExact (relearned embed ratio skill now) (relearned-IsExact skill now) table.rows
              h)
        | inr e ↦ rw e (
            All-append IsExact table.rows (new_skill embed ratio skill now table.next_id ∷ []) h
              (new_skill-IsExact skill now table.next_id, tt))
      ]
  learn-IsExact (reinforcing id success now) table h =
      elim (Bool-cases (any (λ row. eqb row.id id) table.rows)) [
        | inl e ↦
            rw (All, e)
              (map-IsExact (reinforced embed ratio id success now)
                (reinforced-IsExact id success now) table.rows h)
        | inr e ↦ rw (All, e) h
      ]

  -- Whatever skills are stored, again or for the first time, and whatever outcomes are recorded, of known
  -- skills or not, each skill has no more successes than uses and, once it was used, a rate that is
  -- exactly the quotient of the two, if this was so before.
  pub learn_all-IsExact :
      (moves : List (SkillMove W)) (table : Serial (SkillRow W))
      → All IsExact table.rows
      → All IsExact (learn_all moves table).rows
  unfolding learn_all
  learn_all-IsExact [] table h = h
  learn_all-IsExact (move ∷ moves) table h =
      learn_all-IsExact moves (learn move table) (learn-IsExact move table h)
