-- ===== src/Memory/Decay/Tests.antt =====
-- Decay and merge at concrete inputs, in thousandths.
use johnny.Prelude.{arith, refl, ℕ, ◌≤◌, some, List, [], ◌∷◌, String, Option}
use johnny.Float.{Milli, milli_float, Milli-IsOrdered}
use johnny.Memory.Rows.{EpisodeRow, SemanticFactRow, SemanticEdgeRow}
use johnny.Memory.Decay.{MemoryDecay, Knowledge, merge_facts, decay_episodes, EdgeKey}
use johnny.Memory.Decay.Repointed.{keyed}
use johnny.Memory.Decay.Linked.{numbered}
use johnny.Memory.Decay.Graph.{IsGraph, merge_facts-IsGraph}
use johnny.Memory.Decay.Kept.{AreSame, decay_episodes-AreSame}

abbrev keeper : MemoryDecay Milli
keeper = record {
  episode_limit = 2;
  halflife = some 1000;
  floor = some 50;
  charged_boost = some 100;
  merge_threshold = some 900;
  tolerance = some 0;
  half_to = λ x. some 500;
  seconds = λ n. some n;
  sqrt = λ x. x;
}

abbrev fact_of : ℕ → Option ℕ → SemanticFactRow Milli
fact_of id feature = record {
  id = id;
  subject = "dan";
  predicate = "likes";
  object = "tea";
  confidence = some 500;
  source_episode_ids = id ∷ [];
  embedding = feature ∷ [];
  created_at = 1;
  updated_at = 2;
}

abbrev edge_of : ℕ → ℕ → ℕ → SemanticEdgeRow
edge_of id from_fact to_fact = record {
  id = id;
  from_fact = from_fact;
  to_fact = to_fact;
  relation = "knows";
}

-- The second fact is a duplicate of the first one, so the second edge becomes like the first.
abbrev knowledge : Knowledge keeper
knowledge = record {
  facts = fact_of 2 (some 1000) ∷ fact_of 3 (some 1000) ∷ fact_of 7 (some 0) ∷ [];
  edges = edge_of 1 7 2 ∷ edge_of 2 7 3 ∷ [];
}

once : (id : ℕ) → numbered id knowledge.facts ≤ 1
once id = ground arith

single : (e : EdgeKey) → keyed e knowledge.edges ≤ 1
single (a, b, r) = ground arith

merge_facts-IsGraph_example : IsGraph keeper (merge_facts keeper knowledge).0
merge_facts-IsGraph_example = merge_facts-IsGraph keeper knowledge once ((refl, (refl, tt)), single)

abbrev episode_of : ℕ → List String → EpisodeRow Milli
episode_of id emotion_tags = record {
  id = id;
  ts = id;
  kind = "interaction";
  content = "hello";
  actors = [];
  salience = some 600;
  emotion_tags = emotion_tags;
  embedding = [];
}

abbrev episodes : List (EpisodeRow Milli)
episodes = episode_of 3 ("joy" ∷ []) ∷ episode_of 1 [] ∷ episode_of 2 [] ∷ []

decay_episodes-AreSame_example :
    AreSame keeper episodes (decay_episodes keeper 9 knowledge.facts episodes).0
decay_episodes-AreSame_example =
    decay_episodes-AreSame keeper Milli-IsOrdered 9 knowledge.facts episodes
