-- ===== src/Memory/Consolidator/Tests.antt =====
-- Clusters at concrete inputs, in thousandths.
use johnny.Prelude.{
  ◌≡◌, ◌≤◌, ◌+◌, arith, ℕ, ◌*◌, none, some, Bool, List, [], ◌∷◌, count, length, Option,
}
use johnny.Float.{Milli, milli_float}
use johnny.Memory.Rows.{EpisodeRow}
use johnny.Memory.Consolidator.{at_least_one, cluster_episodes}
use johnny.Prelude.Exec.{raised}
use johnny.Memory.Consolidator.Run.{Consolidator, Mind, run}
use johnny.Memory.Consolidator.Written.{Wrote, IsUnique, run-Wrote}
use johnny.Memory.Consolidator.Clustered.{members, strays, cluster_episodes-bounded}

abbrev same : Milli → Milli
same x = x

abbrev whole : ℕ → Milli
whole n = some (1000 * n)

abbrev episode_of : ℕ → Option ℕ → EpisodeRow Milli
episode_of id feature = record {
  id = id;
  ts = id;
  kind = "interaction";
  content = "hello";
  actors = [];
  emotion_tags = [];
  salience = some 600;
  embedding = feature ∷ [];
}

abbrev episodes : List (EpisodeRow Milli)
episodes = episode_of 1 (some 1000) ∷ episode_of 2 (some 1000) ∷ episode_of 3 (some 0) ∷ []

cluster_episodes-bounded_example :
    ((p : EpisodeRow Milli → Bool)
      → count p (members (cluster_episodes same whole (some 900) 1 episodes)) ≡ count p episodes)
    × (length (cluster_episodes same whole (some 900) 1 episodes)
        ≤ at_least_one 1 + strays same whole (some 900) 1 [] episodes)
cluster_episodes-bounded_example = cluster_episodes-bounded same whole (some 900) 1 episodes

-- Without a model
abbrev consolidator : Consolidator Milli
consolidator = record {
  router = none;
  prompt = "distil";
  threshold = some 900;
  max_clusters = 2;
  max_tokens = 100;
  fallback_confidence = some 300;
  parse = λ s. raised "no JSON";
  embed = λ s. [];
  ratio = λ a b. some 0;
  sqrt = same;
  of_nat = whole;
}

abbrev empty_mind : Mind Milli
empty_mind = record {
  router = record { breakers = []; history = [] };
  facts = record { next_id = 1; rows = [] };
}

empty-IsUnique : IsUnique consolidator []
empty-IsUnique s p = omega arith

run-Wrote_example :
    Wrote consolidator
      (length (cluster_episodes same whole (some 900) 2 episodes))
      (run consolidator 5 episodes empty_mind)
run-Wrote_example = run-Wrote consolidator 5 episodes empty_mind empty-IsUnique
