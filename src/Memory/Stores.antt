-- ===== src/Memory/Stores.antt =====
-- brain/memory/semantic.py and procedural.py: the writes of facts, edges and skills, and the reads that go
-- by columns. Each is one statement of SQL; `embed` is the embedding client, `now` the clock of the
-- database, and `ratio` the quotient of two counts as a float. The searches by distance are those of
-- pgvector and are left out.
pub mod Reinforced
pub mod Upserted
mod Tests
use Prim.Native.String.{◌++◌ as append_text}
use johnny.Prelude.{
  ℕ, suc, ◌+◌, String, Bool, true, false, Option, none, some, List, [], ◌∷◌, ◌++◌, ◌==◌, ◌&&◌, eqb,
  leb, ltb, any, map, select, take, if◌then◌else◌,
}
use johnny.Prelude.Texts.{strip}
use johnny.Prelude.Sort.{sort_desc}
use johnny.Float.{Float, clamp01}
use johnny.Json.{Fields}
use johnny.Memory.Rows.{SemanticFactRow, SemanticEdgeRow, SkillRow}
use johnny.Memory.Tables.{Serial, has_fact}

pub record Skill (W : Type 0) : Type 0 where
  pub name : String
  pub description : String
  pub recipe : Fields
  pub success_rate : W
  pub uses : ℕ
  pub successes : ℕ

pub data StoreError : Type 0 where
  skill_not_found : ℕ → StoreError
  no_such_fact : StoreError

module _ {W : Type 0} ⦃f : Float W⦄ (embed : String → List W) (ratio : ℕ → ℕ → W) where
  -- `_fact_text`
  abbrev pub fact_text : String → String → String → String
  fact_text subject predicate object =
      append_text subject (append_text " " (append_text predicate (append_text " " object)))

  abbrev pub is_fact : String → String → SemanticFactRow W → Bool
  is_fact subject predicate row = row.subject == subject && row.predicate == predicate

  abbrev pub asserted :
      String → String → String → W → List ℕ → ℕ → SemanticFactRow W → SemanticFactRow W
  asserted subject predicate object confidence sources now row =
      if is_fact subject predicate row
      then record row {
        object = object;
        confidence = clamp01 confidence;
        source_episode_ids = sources;
        embedding = embed (fact_text subject predicate object);
        updated_at = now;
      }
      else row

  abbrev pub new_fact : String → String → String → W → List ℕ → ℕ → ℕ → SemanticFactRow W
  new_fact subject predicate object confidence sources now id = record {
    id = id;
    subject = subject;
    predicate = predicate;
    object = object;
    confidence = clamp01 confidence;
    source_episode_ids = sources;
    embedding = embed (fact_text subject predicate object);
    created_at = now;
    updated_at = now;
  }

  -- `upsert_fact`: a conflict updates the row in place; the sequence has counted up by then.
  unfoldable pub upsert_fact :
      String
      → String
      → String
      → W
      → List ℕ
      → ℕ
      → Serial (SemanticFactRow W)
      → Serial (SemanticFactRow W)
  unfolding clamp01
  upsert_fact subject predicate object confidence sources now table = record {
    next_id = suc table.next_id;
    rows =
        if any (is_fact subject predicate) table.rows
        then map (asserted subject predicate object confidence sources now) table.rows
        else table.rows
          ++ new_fact subject predicate object confidence sources now table.next_id ∷ [];
  }

  -- `recent`
  unfoldable pub recent_facts : ℕ → Serial (SemanticFactRow W) → List (SemanticFactRow W)
  recent_facts limit table = take limit (sort_desc ltb (λ row. row.updated_at) table.rows)

  -- `_skill_text`
  abbrev pub skill_text : Skill W → String
  skill_text skill = strip (append_text skill.name (append_text " " skill.description))

  abbrev max_successes : ℕ → ℕ → ℕ
  max_successes successes uses = if ltb uses successes then uses else successes

  abbrev pub new_skill : Skill W → ℕ → ℕ → SkillRow W
  new_skill skill now id =
      let successes = max_successes skill.successes skill.uses in
      record {
        id = id;
        name = skill.name;
        recipe = skill.recipe;
        success_rate =
            if leb skill.uses 0 then clamp01 skill.success_rate else ratio successes skill.uses;
        uses = skill.uses;
        successes = successes;
        embedding = embed (skill_text skill);
        created_at = now;
        updated_at = now;
      }

  abbrev pub relearned : Skill W → ℕ → SkillRow W → SkillRow W
  relearned skill now row =
      if row.name == skill.name
      then record row {
        recipe = skill.recipe;
        embedding = embed (skill_text skill);
        updated_at = now;
      }
      else row

  -- `ProceduralMemory.store`
  unfoldable pub store_skill : Skill W → ℕ → Serial (SkillRow W) → Serial (SkillRow W)
  unfolding clamp01 strip
  store_skill skill now table = record {
    next_id = suc table.next_id;
    rows =
        if any (λ row. row.name == skill.name) table.rows
        then map (relearned skill now) table.rows
        else table.rows ++ new_skill skill now table.next_id ∷ [];
  }

  abbrev pub outcome : Bool → ℕ
  outcome success = if success then 1 else 0

  abbrev pub reinforced : ℕ → Bool → ℕ → SkillRow W → SkillRow W
  reinforced skill_id success now row =
      let successes = row.successes + outcome success in
      if eqb row.id skill_id
      then record row {
        uses = row.uses + 1;
        successes = successes;
        success_rate = ratio successes (row.uses + 1);
        updated_at = now;
      }
      else row

  -- `reinforce`, which raises when no row has the id
  unfoldable pub reinforce :
      ℕ → Bool → ℕ → Serial (SkillRow W) → Option StoreError × Serial (SkillRow W)
  reinforce skill_id success now table =
      if any (λ row. eqb row.id skill_id) table.rows
      then (none, record table { rows = map (reinforced skill_id success now) table.rows })
      else (some (skill_not_found skill_id), table)

-- `link`: an edge that is there already stays, and one to or from no fact is refused.
abbrev pub is_edge : ℕ → ℕ → String → SemanticEdgeRow → Bool
is_edge from_fact to_fact relation e =
    eqb e.from_fact from_fact && (eqb e.to_fact to_fact && e.relation == relation)

unfoldable pub link :
    {W : Type 0}
    → List (SemanticFactRow W)
    → ℕ
    → ℕ
    → String
    → Serial SemanticEdgeRow
    → Option StoreError × Serial SemanticEdgeRow
link facts from_fact to_fact relation table =
    if any (is_edge from_fact to_fact relation) table.rows
    then (none, record table { next_id = suc table.next_id })
    else if has_fact facts from_fact && has_fact facts to_fact
    then (
      none,
      record {
        next_id = suc table.next_id;
        rows =
            table.rows
            ++ record {
              id = table.next_id;
              from_fact = from_fact;
              to_fact = to_fact;
              relation = relation;
            }
              ∷ [];
      },
    )
    else (some no_such_fact, record table { next_id = suc table.next_id })
