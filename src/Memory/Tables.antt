-- ===== src/Memory/Tables.antt =====
-- The tables of the persistent stores with their constraints, as brain/memory, brain/self_model,
-- brain/affect, brain/drives and brain/goals declare them in their rows, and what one transaction does.
use johnny.Prelude.{
  ℕ, suc, Bool, true, false, Option, none, some, List, [], ◌∷◌, ◌++◌, ◌==◌, ◌&&◌, ◌||◌, eqb, ltb,
  any, map, if◌then◌else◌, ◌≡◌, All,
}
use johnny.Float.{Float}
use johnny.Goals.Store.{GoalRow}
use johnny.Drives.Engine.{DriveReading}
use johnny.Memory.Rows.{
  EpisodeRow, SemanticFactRow, SemanticEdgeRow, SkillRow, IdentityRow, MoodRow, ThoughtRow,
}

-- A table with a serial key: its rows, and the next value that the sequence gives.
pub record Serial (R : Type 0) : Type 0 where
  pub next_id : ℕ
  pub rows : List R

pub record Stores (W : Type 0) : Type 0 where
  pub episode : Serial (EpisodeRow W)
  pub semantic_fact : Serial (SemanticFactRow W)
  pub semantic_edge : Serial SemanticEdgeRow
  pub skill : Serial (SkillRow W)
  pub identity : Serial IdentityRow
  pub drive_state : List (DriveReading W)
  pub mood : Serial (MoodRow W)
  pub goal : Serial (GoalRow W)
  pub thought : List ThoughtRow

-- What a table asks of a row, and of two rows.
pub record Constraint (R : Type 0) : Type 0 where
  pub accepts : R → Bool
  pub clash : R → R → Bool

abbrev pub always : {R : Type 0} → R → Bool
always r = true

module _ {W : Type 0} where
  abbrev pub episode_constraint : Constraint (EpisodeRow W)
  episode_constraint = record { accepts = always; clash = λ a b. eqb a.id b.id }

  abbrev pub fact_constraint : Constraint (SemanticFactRow W)
  fact_constraint = record {
    accepts = always;
    clash = λ a b. eqb a.id b.id || (a.subject == b.subject && a.predicate == b.predicate);
  }

  abbrev pub has_fact : List (SemanticFactRow W) → ℕ → Bool
  has_fact facts id = any (λ f. eqb f.id id) facts

  abbrev pub edge_constraint : List (SemanticFactRow W) → Constraint SemanticEdgeRow
  edge_constraint facts = record {
    accepts = λ e. has_fact facts e.from_fact && has_fact facts e.to_fact;
    clash = λ a b.
        eqb a.id b.id
        || (eqb a.from_fact b.from_fact && (eqb a.to_fact b.to_fact && a.relation == b.relation));
  }

  abbrev pub skill_constraint : Constraint (SkillRow W)
  skill_constraint = record { accepts = always; clash = λ a b. eqb a.id b.id || a.name == b.name }

  abbrev pub goal_constraint : Constraint (GoalRow W)
  goal_constraint = record { accepts = always; clash = λ a b. eqb a.id b.id }

abbrev pub identity_constraint : Constraint IdentityRow
identity_constraint = record {
  accepts = always;
  clash = λ a b. eqb a.id b.id || eqb a.version b.version;
}

module _ {W : Type 0} ⦃f : Float W⦄ where
  abbrev pub drive_constraint : Constraint (DriveReading W)
  drive_constraint = record {
    accepts = λ r. f.le f.zero r.value && f.le r.value f.one;
    clash = λ a b. a.drive == b.drive;
  }

  abbrev pub mood_constraint : Constraint (MoodRow W)
  mood_constraint = record {
    accepts = λ r.
        (f.le (f.sub f.zero f.one) r.valence && f.le r.valence f.one)
        && (f.le f.zero r.arousal && f.le r.arousal f.one);
    clash = λ a b. eqb a.id b.id;
  }

module _ {R : Type 0} (k : Constraint R) where
  -- `INSERT` of rows after those that are there, refused when a row breaks a constraint.
  unfoldable pub insert_all : List R → List R → Option (List R)
  insert_all there [] = some there
  insert_all there (r ∷ rs) =
      let rest = insert_all (there ++ r ∷ []) rs in
      if k.accepts r then (if any (λ a. k.clash a r) there then none else rest) else none

  -- The rows of a table satisfy its constraints.
  abbrev pub IsSound : List R → Type 0
  IsSound [] = Unit
  IsSound (r ∷ rs) = (k.accepts r ≡ true) × All (λ b. k.clash r b ≡ false) rs × IsSound rs

infixl 10 ◌>>=◌
abbrev ◌>>=◌ : {A B : Type 0} → Option A → (A → Option B) → Option B
none >>= g = none
some a >>= g = g a

-- The rows of the second flush of a restore.
pub record Rows (W : Type 0) : Type 0 where
  pub edges : List SemanticEdgeRow
  pub skills : List (SkillRow W)
  pub identities : List IdentityRow
  pub drives : List (DriveReading W)
  pub moods : List (MoodRow W)
  pub goals : List (GoalRow W)

-- The stores with rows added, or nothing when a row is refused.
module _ {W : Type 0} ⦃f : Float W⦄ where
  unfoldable pub with_first_rows :
      List (EpisodeRow W) → List (SemanticFactRow W) → Stores W → Option (Stores W)
  unfolding insert_all
  with_first_rows episodes facts s = do
    episodes ← insert_all episode_constraint s.episode.rows episodes
    facts ← insert_all fact_constraint s.semantic_fact.rows facts
    some (record s {
      episode = record s.episode { rows = episodes };
      semantic_fact = record s.semantic_fact { rows = facts };
    })

  unfoldable pub with_memory_rows :
      List SemanticEdgeRow → List (SkillRow W) → Stores W → Option (Stores W)
  unfolding insert_all
  with_memory_rows edges skills s = do
    edges ← insert_all (edge_constraint s.semantic_fact.rows) s.semantic_edge.rows edges
    skills ← insert_all skill_constraint s.skill.rows skills
    some (record s {
      semantic_edge = record s.semantic_edge { rows = edges };
      skill = record s.skill { rows = skills };
    })

  unfoldable pub with_all_rows : Rows W → Stores W → Option (Stores W)
  unfolding with_memory_rows insert_all
  with_all_rows r s = do
    t ← with_memory_rows r.edges r.skills s
    identities ← insert_all identity_constraint t.identity.rows r.identities
    drives ← insert_all drive_constraint t.drive_state r.drives
    moods ← insert_all mood_constraint t.mood.rows r.moods
    goals ← insert_all goal_constraint t.goal.rows r.goals
    some (record t {
      identity = record t.identity { rows = identities };
      drive_state = drives;
      mood = record t.mood { rows = moods };
      goal = record t.goal { rows = goals };
    })

-- `COALESCE(MAX(id), 0)`
abbrev pub largest : {R : Type 0} → (R → ℕ) → List R → ℕ
largest id [] = 0
largest id (r ∷ rs) = let rest = largest id rs in if ltb rest (id r) then id r else rest

-- `setval(sequence, GREATEST(MAX(id), 1), COUNT(*) > 0)` for one table, as the value that comes next.
unfoldable pub next_after : {R : Type 0} → (R → ℕ) → List R → ℕ
next_after id [] = 1
next_after id (r ∷ rs) = let top = largest id (r ∷ rs) in suc (if ltb top 1 then 1 else top)

abbrev pub resync : {R : Type 0} → (R → ℕ) → Serial R → Serial R
resync id table = record { next_id = next_after id table.rows; rows = table.rows }

-- `TRUNCATE ... RESTART IDENTITY`
abbrev pub truncated : {R : Type 0} → Serial R
truncated = record { next_id = 1; rows = [] }

abbrev pub forget_mood : ThoughtRow → ThoughtRow
forget_mood row = record row { mood_id = none }

-- `DELETE FROM mood`, with `ON DELETE SET NULL` on the key that a thought has of it.
unfoldable pub delete_moods : {W : Type 0} → Stores W → Stores W
delete_moods s = record s {
  mood = record { next_id = s.mood.next_id; rows = [] };
  thought = map forget_mood s.thought;
}

-- Every table satisfies its constraints.
pub record IsValid {W : Type 0} ⦃f : Float W⦄ (s : Stores W) : Type 0 where
  pub episodes : IsSound episode_constraint s.episode.rows
  pub facts : IsSound fact_constraint s.semantic_fact.rows
  pub edges : IsSound (edge_constraint s.semantic_fact.rows) s.semantic_edge.rows
  pub skills : IsSound skill_constraint s.skill.rows
  pub identities : IsSound identity_constraint s.identity.rows
  pub drives : IsSound drive_constraint s.drive_state
  pub moods : IsSound mood_constraint s.mood.rows
  pub goals : IsSound goal_constraint s.goal.rows
