-- ===== src/Memory/Consolidator.antt =====
-- brain/memory/consolidator.py: recent episodes are clustered by their embeddings, and each cluster is
-- distilled to a fact by the model of the router, or without one. `parse` is the validation of a JSON
-- text as a `ConsolidationSummary` by Pydantic.
pub mod Clustered
pub mod Run
pub mod Written
mod Tests
use Prim.Native.String.{◌++◌ as append_text}
use johnny.Prelude.{
  ℕ, zero, suc, ◌+◌, String, Bool, Option, none, some, List, [], ◌∷◌, ◌++◌, Dict, lookup, insert,
  map, length, leb, ltb, if◌then◌else◌, ◌||◌,
}
use johnny.Prelude.Exec.{Outcome, returned, raised, Exec, pure, ◌>>=◌, ◌>>◌}
use johnny.Prelude.Sort.{max_by}
use johnny.Prelude.Texts.{join, take_text}
use johnny.Float.{Float}
use johnny.Memory.Base.{cosine_similarity}
use johnny.Memory.Rows.{EpisodeRow}

-- `_Cluster`
pub record Cluster (W : Type 0) : Type 0 where
  pub episodes : List (EpisodeRow W)
  pub sum : List W

pub record ConsolidationSummary (W : Type 0) : Type 0 where
  pub subject : String
  pub predicate : String
  pub object : String
  pub confidence : W

abbrev pub at_least_one : ℕ → ℕ
at_least_one n = if leb n 1 then 1 else n

module _ {W : Type 0} ⦃f : Float W⦄ (sqrt : W → W) (of_nat : ℕ → W) where
  abbrev add_vectors : List W → List W → List W
  add_vectors [] ys = []
  add_vectors (x ∷ xs) [] = []
  add_vectors (x ∷ xs) (y ∷ ys) = f.add x y ∷ add_vectors xs ys

  abbrev sum_with : List W → List W → List W
  sum_with [] vector = vector
  sum_with (x ∷ xs) vector = add_vectors (x ∷ xs) vector

  -- `_Cluster.add`
  abbrev pub add_episode : EpisodeRow W → Cluster W → Cluster W
  add_episode episode cluster = record {
    episodes = cluster.episodes ++ episode ∷ [];
    sum = sum_with cluster.sum episode.embedding;
  }

  abbrev pub centroid : Cluster W → List W
  centroid cluster = map (λ s. f.div s (of_nat (length cluster.episodes))) cluster.sum

  -- The loop of `_nearest_cluster`, at an index
  unfoldable pub nearest_from : List W → ℕ → Option ℕ × W → List (Cluster W) → Option ℕ × W
  unfolding cosine_similarity
  nearest_from vector idx best [] = best
  nearest_from vector idx best (cluster ∷ clusters) =
      let sim = cosine_similarity sqrt vector (centroid cluster) in
      nearest_from vector (suc idx) (if f.lt best.1 sim then (some idx, sim) else best) clusters

  unfoldable pub nearest_cluster : List (Cluster W) → List W → Option ℕ × W
  unfolding nearest_from
  nearest_cluster clusters vector = nearest_from vector 0 (none, f.sub f.zero f.one) clusters

  abbrev pub new_cluster : EpisodeRow W → Cluster W
  new_cluster episode = add_episode episode (record { episodes = []; sum = [] })

  abbrev pub add_at : ℕ → EpisodeRow W → List (Cluster W) → List (Cluster W)
  add_at zero episode [] = []
  add_at (suc i) episode [] = []
  add_at zero episode (cluster ∷ clusters) = add_episode episode cluster ∷ clusters
  add_at (suc i) episode (cluster ∷ clusters) = cluster ∷ add_at i episode clusters

  module _ (threshold : W) (max_clusters : ℕ) where
    abbrev pub joins : W → List (Cluster W) → Bool
    joins sim clusters = f.le threshold sim || leb (at_least_one max_clusters) (length clusters)

    abbrev pub placed : EpisodeRow W → List (Cluster W) → Option ℕ × W → List (Cluster W)
    placed episode clusters (none, sim) = clusters ++ new_cluster episode ∷ []
    placed episode clusters (some idx, sim) =
        if joins sim clusters
        then add_at idx episode clusters
        else clusters ++ new_cluster episode ∷ []

    abbrev pub place : EpisodeRow W → List (Cluster W) → List (Cluster W)
    place episode clusters = placed episode clusters (nearest_cluster clusters episode.embedding)

    unfoldable pub cluster_from : List (Cluster W) → List (EpisodeRow W) → List (Cluster W)
    unfolding nearest_cluster
    cluster_from clusters [] = clusters
    cluster_from clusters (episode ∷ episodes) = cluster_from (place episode clusters) episodes

    unfoldable pub cluster_episodes : List (EpisodeRow W) → List (List (EpisodeRow W))
    unfolding cluster_from
    cluster_episodes episodes = map (λ c. c.episodes) (cluster_from [] episodes)

abbrev or_zero : Option ℕ → ℕ
or_zero none = 0
or_zero (some n) = n

abbrev count_kinds : {W : Type 0} → Dict ℕ → List (EpisodeRow W) → Dict ℕ
count_kinds counts [] = counts
count_kinds counts (e ∷ es) =
    count_kinds (insert e.kind (suc (or_zero (lookup e.kind counts))) counts) es

abbrev count_in : String × ℕ → ℕ
count_in (kind, n) = n

abbrev commonest : Dict ℕ → String
commonest [] = "experience"
commonest (e ∷ es) = (max_by ltb count_in e es).0

-- `_dominant_kind`
unfoldable pub dominant_kind : {W : Type 0} → List (EpisodeRow W) → String
unfolding max_by
dominant_kind episodes = commonest (count_kinds [] episodes)

-- `_fallback_summary`; the confidence is the literal 0.3.
unfoldable pub fallback_summary : {W : Type 0} → W → List (EpisodeRow W) → ConsolidationSummary W
unfolding dominant_kind join take_text
fallback_summary confidence episodes = record {
  subject = append_text "my recent " (dominant_kind episodes);
  predicate = "recent_experience";
  object = take_text 480 (join "; " (map (λ e. e.content) episodes));
  confidence = confidence;
}
