-- ===== src/Memory/Format/Records.antt =====
-- The projections of the rows of the long-term memory to the records of a snapshot and back
-- (brain/memory/snapshot.py).
use johnny.Prelude.{String, Option, some, List, [], ◌∷◌}
use johnny.Json.{Json, int, str, arr, obj, end, field}
use johnny.Memory.Rows.{EpisodeRow, SemanticFactRow, SemanticEdgeRow, SkillRow}
use johnny.Memory.Format.{
  Codec, column, record_of, as_nat, as_text, as_fields, items_of, as_list, time, as_time, ◌>>=◌,
}

module _ {T W : Type 0} (c : Codec T W) where
  unfoldable pub episode_dict : EpisodeRow W → Json
  episode_dict r = obj (
      field "id" (int r.id) (
        field "ts" (time c r.ts) (
          field "kind" (str r.kind) (
            field "content" (str r.content) (
              field "actors" (arr (items_of str r.actors)) (
                field "emotion_tags" (arr (items_of str r.emotion_tags)) (
                  field "salience" (c.of_float r.salience)
                    (field "embedding" (arr (items_of c.of_float r.embedding)) (end)))))))))

  abbrev episode_columns : List String
  episode_columns =
      "id" ∷ "ts" ∷ "kind" ∷ "content" ∷ "actors" ∷ "emotion_tags" ∷ "salience" ∷ "embedding" ∷ []

  unfoldable pub episode_row : Json → Option (EpisodeRow W)
  episode_row j = do
    d ← record_of episode_columns j
    id ← column "id" d >>= as_nat
    ts ← column "ts" d >>= as_time c
    kind ← column "kind" d >>= as_text
    content ← column "content" d >>= as_text
    actors ← column "actors" d >>= as_list as_text
    emotion_tags ← column "emotion_tags" d >>= as_list as_text
    salience ← column "salience" d >>= c.as_float
    embedding ← column "embedding" d >>= as_list c.as_float
    some (record {
      id = id;
      ts = ts;
      kind = kind;
      content = content;
      actors = actors;
      emotion_tags = emotion_tags;
      salience = salience;
      embedding = embedding;
    })

  unfoldable pub fact_dict : SemanticFactRow W → Json
  fact_dict r = obj (
      field "id" (int r.id) (
        field "subject" (str r.subject) (
          field "predicate" (str r.predicate) (
            field "object" (str r.object) (
              field "confidence" (c.of_float r.confidence) (
                field "source_episode_ids" (arr (items_of int r.source_episode_ids)) (
                  field "embedding" (arr (items_of c.of_float r.embedding)) (
                    field "created_at" (time c r.created_at)
                      (field "updated_at" (time c r.updated_at) (end))))))))))

  abbrev fact_columns : List String
  fact_columns =
      "id" ∷ "subject" ∷ "predicate" ∷ "object" ∷ "confidence" ∷ "source_episode_ids" ∷ "embedding"
      ∷ "created_at" ∷ "updated_at" ∷ []

  unfoldable pub fact_row : Json → Option (SemanticFactRow W)
  fact_row j = do
    d ← record_of fact_columns j
    id ← column "id" d >>= as_nat
    subject ← column "subject" d >>= as_text
    predicate ← column "predicate" d >>= as_text
    object ← column "object" d >>= as_text
    confidence ← column "confidence" d >>= c.as_float
    source_episode_ids ← column "source_episode_ids" d >>= as_list as_nat
    embedding ← column "embedding" d >>= as_list c.as_float
    created_at ← column "created_at" d >>= as_time c
    updated_at ← column "updated_at" d >>= as_time c
    some (record {
      id = id;
      subject = subject;
      predicate = predicate;
      object = object;
      confidence = confidence;
      source_episode_ids = source_episode_ids;
      embedding = embedding;
      created_at = created_at;
      updated_at = updated_at;
    })

  unfoldable pub edge_dict : SemanticEdgeRow → Json
  edge_dict r = obj (
      field "id" (int r.id) (
        field "from_fact" (int r.from_fact)
          (field "to_fact" (int r.to_fact) (field "relation" (str r.relation) (end)))))

  abbrev edge_columns : List String
  edge_columns = "id" ∷ "from_fact" ∷ "to_fact" ∷ "relation" ∷ []

  unfoldable pub edge_row : Json → Option (SemanticEdgeRow)
  edge_row j = do
    d ← record_of edge_columns j
    id ← column "id" d >>= as_nat
    from_fact ← column "from_fact" d >>= as_nat
    to_fact ← column "to_fact" d >>= as_nat
    relation ← column "relation" d >>= as_text
    some (record { id = id; from_fact = from_fact; to_fact = to_fact; relation = relation })

  unfoldable pub skill_dict : SkillRow W → Json
  skill_dict r = obj (
      field "id" (int r.id) (
        field "name" (str r.name) (
          field "recipe" (obj r.recipe) (
            field "success_rate" (c.of_float r.success_rate) (
              field "uses" (int r.uses) (
                field "successes" (int r.successes) (
                  field "embedding" (arr (items_of c.of_float r.embedding)) (
                    field "created_at" (time c r.created_at)
                      (field "updated_at" (time c r.updated_at) (end))))))))))

  abbrev skill_columns : List String
  skill_columns =
      "id" ∷ "name" ∷ "recipe" ∷ "success_rate" ∷ "uses" ∷ "successes" ∷ "embedding" ∷ "created_at"
      ∷ "updated_at" ∷ []

  unfoldable pub skill_row : Json → Option (SkillRow W)
  skill_row j = do
    d ← record_of skill_columns j
    id ← column "id" d >>= as_nat
    name ← column "name" d >>= as_text
    recipe ← column "recipe" d >>= as_fields
    success_rate ← column "success_rate" d >>= c.as_float
    uses ← column "uses" d >>= as_nat
    successes ← column "successes" d >>= as_nat
    embedding ← column "embedding" d >>= as_list c.as_float
    created_at ← column "created_at" d >>= as_time c
    updated_at ← column "updated_at" d >>= as_time c
    some (record {
      id = id;
      name = name;
      recipe = recipe;
      success_rate = success_rate;
      uses = uses;
      successes = successes;
      embedding = embedding;
      created_at = created_at;
      updated_at = updated_at;
    })
