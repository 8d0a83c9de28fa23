-- ===== src/Memory/Consolidator/Run.antt =====
-- brain/memory/consolidator.py: a pass over the clusters, which writes a fact for each.
use Prim.Native.String.{◌++◌ as append_text}
use johnny.Prelude.{
  ℕ, String, Option, none, some, List, [], ◌∷◌, ◌++◌, ◌==◌, map, select, if◌then◌else◌,
}
use johnny.Prelude.Exec.{Outcome, returned, raised, Exec, pure, ◌>>=◌}
use johnny.Prelude.Texts.{join}
use johnny.Float.{Float}
use johnny.Llm.{Role, text, Completion, LlmError, unavailable, unavailable_by, other}
use johnny.Llm.Router.{Request, Outside, Config, State, complete}
use johnny.Memory.Rows.{EpisodeRow, SemanticFactRow}
use johnny.Memory.Tables.{Serial}
use johnny.Memory.Stores.{is_fact, upsert_fact}
use johnny.Memory.Consolidator.{ConsolidationSummary, fallback_summary, cluster_episodes}

pub record Routed : Type 0 where
  pub outside : Outside
  pub config : Config

-- What `Consolidator` is made with, and the literal 0.3.
pub record Consolidator (W : Type 0) : Type 0 where
  pub router : Option Routed
  pub prompt : String
  pub threshold : W
  pub max_clusters : ℕ
  pub max_tokens : ℕ
  pub fallback_confidence : W
  pub parse : String → Outcome String (ConsolidationSummary W)
  pub embed : String → List W
  pub ratio : ℕ → ℕ → W
  pub sqrt : W → W
  pub of_nat : ℕ → W

pub record Mind (W : Type 0) : Type 0 where
  pub router : State
  pub facts : Serial (SemanticFactRow W)

abbrev pub Consolidating : Type 0 → Type 0 → Type 0
Consolidating W = Exec (Mind W) LlmError

abbrev failure_of : {A : Type 0} → Outcome String A → Option String
failure_of (returned a) = none
failure_of (raised e) = some e

abbrev fragment : {W : Type 0} → EpisodeRow W → String
fragment e = append_text "- [" (append_text e.kind (append_text "] " e.content))

abbrev pub id_of : {W : Type 0} → EpisodeRow W → ℕ
id_of e = e.id

module _ {W : Type 0} ⦃f : Float W⦄ (c : Consolidator W) where
  -- `_render`
  abbrev render : List (EpisodeRow W) → String
  render episodes =
      append_text "Here is a cluster of related fragments from your recent experience:\n" (
        append_text (join "\n" (map fragment episodes))
          "\n\nDistil them into ONE durable fact, as the JSON triple {\"subject\": ..., \"predicate\": ..., \"object\": ..., \"confidence\": <0..1>}.")

  abbrev pub request : List (EpisodeRow W) → Request
  request episodes = record {
    role = "consolidation";
    messages =
        record { role = Role.system; content = text c.prompt }
        ∷ record { role = Role.user; content = text (render episodes) }
        ∷ [];
    schema =
        some (record {
          name = "ConsolidationSummary";
          validation_error = λ s. failure_of (c.parse s);
        });
    temperature = 40;
    max_tokens = some c.max_tokens;
  }

  abbrev parsed :
      Outcome String (ConsolidationSummary W) → Outcome LlmError (Option (ConsolidationSummary W))
  parsed (returned summary) = returned (some summary)
  parsed (raised e) = raised (other e)

  abbrev pub answered :
      Outcome LlmError Completion → Outcome LlmError (Option (ConsolidationSummary W))
  answered (returned done) = parsed (c.parse done.content)
  answered (raised (unavailable role)) = returned none
  answered (raised (unavailable_by role cause)) = returned none
  answered (raised x) = raised x

  -- `_summarise_with_llm`
  unfoldable pub summarise_with_llm :
      Routed → List (EpisodeRow W) → Consolidating W (Option (ConsolidationSummary W))
  unfolding join
  summarise_with_llm routed episodes s =
      let (out, t) = complete routed.outside routed.config (request episodes) s.router in
      (answered out, record s { router = t })

  abbrev pub or_fallback :
      List (EpisodeRow W)
      → Option (ConsolidationSummary W)
      → Consolidating W (ConsolidationSummary W)
  or_fallback episodes none = pure (fallback_summary c.fallback_confidence episodes)
  or_fallback episodes (some summary) = pure summary

  abbrev pub summarise_by :
      Option Routed → List (EpisodeRow W) → Consolidating W (ConsolidationSummary W)
  summarise_by none episodes = or_fallback episodes none
  summarise_by (some routed) episodes =
      if c.prompt == ""
      then or_fallback episodes none
      else (summarise_with_llm routed episodes >>= or_fallback episodes)

  -- `_summarise`
  unfoldable pub summarise : List (EpisodeRow W) → Consolidating W (ConsolidationSummary W)
  unfolding summarise_with_llm fallback_summary
  summarise episodes = summarise_by c.router episodes

  abbrev pub write_fact : ℕ → List (EpisodeRow W) → ConsolidationSummary W → Mind W → Mind W
  write_fact now episodes summary s = record s {
    facts =
        upsert_fact c.embed c.ratio summary.subject summary.predicate summary.object
          summary.confidence (map id_of episodes) now s.facts;
  }

  -- The row that an upsert returns
  abbrev pub row_of : ConsolidationSummary W → Mind W → List (SemanticFactRow W)
  row_of summary s = select (is_fact c.embed c.ratio summary.subject summary.predicate) s.facts.rows

  abbrev pub upserted :
      ℕ → List (EpisodeRow W) → ConsolidationSummary W → Consolidating W (List (SemanticFactRow W))
  upserted now episodes summary s =
      let t = write_fact now episodes summary s in (returned (row_of summary t), t)

  -- The loop over the clusters
  unfoldable pub consolidate :
      ℕ → List (List (EpisodeRow W)) → Consolidating W (List (SemanticFactRow W))
  unfolding summarise upsert_fact
  consolidate now [] = pure []
  consolidate now (episodes ∷ clusters) = (summarise episodes >>= upserted now episodes) >>= λ fact.
      (consolidate now clusters >>= λ facts. pure (fact ++ facts))

  -- `run`, over the recent episodes
  unfoldable pub run : ℕ → List (EpisodeRow W) → Consolidating W (List (SemanticFactRow W))
  unfolding consolidate cluster_episodes
  run now recent =
      consolidate now (cluster_episodes c.sqrt c.of_nat c.threshold c.max_clusters recent)
