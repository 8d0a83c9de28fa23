-- ===== src/Memory/Rows.antt =====
-- The rows of the persistent stores: `EpisodeRow` of brain/memory/episodic.py, `SemanticFactRow` and
-- `SemanticEdgeRow` of brain/memory/semantic.py, `SkillRow` of brain/memory/procedural.py, `IdentityRow`
-- of brain/self_model/store.py, `MoodRow` of brain/affect/agent.py and `ThoughtRow` of
-- brain/agents/narrator.py. Times are in microseconds.
use johnny.Prelude.{ℕ, String, Option, List, Dict}
use johnny.Json.{Fields}

pub record EpisodeRow (W : Type 0) : Type 0 where
  pub id : ℕ
  pub ts : ℕ
  pub kind : String
  pub content : String
  pub actors : List String
  pub emotion_tags : List String
  pub salience : W
  pub embedding : List W

pub record SemanticFactRow (W : Type 0) : Type 0 where
  pub id : ℕ
  pub subject : String
  pub predicate : String
  pub object : String
  pub confidence : W
  pub source_episode_ids : List ℕ
  pub embedding : List W
  pub created_at : ℕ
  pub updated_at : ℕ

pub record SemanticEdgeRow : Type 0 where
  pub id : ℕ
  pub from_fact : ℕ
  pub to_fact : ℕ
  pub relation : String

pub record SkillRow (W : Type 0) : Type 0 where
  pub id : ℕ
  pub name : String
  pub recipe : Fields
  pub success_rate : W
  pub uses : ℕ
  pub successes : ℕ
  pub embedding : List W
  pub created_at : ℕ
  pub updated_at : ℕ

pub record IdentityRow : Type 0 where
  pub id : ℕ
  pub name : String
  pub self_model_doc : String
  pub values : List String
  pub concerns : List String
  pub relationships : Fields
  pub version : ℕ
  pub created_at : ℕ

pub record MoodRow (W : Type 0) : Type 0 where
  pub id : ℕ
  pub ts : ℕ
  pub valence : W
  pub arousal : W
  pub emotions : Dict W

pub record ThoughtRow : Type 0 where
  pub id : ℕ
  pub ts : ℕ
  pub text : String
  pub mood_id : Option ℕ
