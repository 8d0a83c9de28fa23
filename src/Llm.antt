-- ===== src/Llm.antt =====
-- The inference layer (brain/llm): the message and error types of base.py and the parts below it.
pub mod Breaker
pub mod Pricing
pub mod Routing
pub mod Router
mod Tests
use johnny.Prelude.{ℕ, String, Bool, Option, List}

pub data Role : Type 0 where
  system user assistant tool : Role

-- `content` is a text, or the list of an OpenAI multimodal message (each part as its JSON text).
pub data Content : Type 0 where
  text : String → Content
  parts : List String → Content

pub record Message : Type 0 where
  pub role : Role
  pub content : Content

-- `Completion`, less `raw`, which is the provider's envelope and is never read back.
pub record Completion : Type 0 where
  pub content : String
  pub reasoning : Option String
  pub provider : String
  pub model : String
  pub prompt_tokens : ℕ
  pub completion_tokens : ℕ
  pub finish_reason : Option String

-- `LLMError` and its subclasses, the router's `_BudgetExhausted`, and `other` for every exception that
-- is neither. `LLMUnavailableError` carries its cause, if there is one.
pub data LlmError : Type 0 where
  provider_timeout : String → LlmError
  provider_error : String → LlmError
  schema_validation : String → String → LlmError
  unavailable : String → LlmError
  unavailable_by : String → LlmError → LlmError
  budget_exhausted : String → LlmError
  other : String → LlmError

-- A Pydantic class: its name, and `model_validate_json` as the message of the error that it raises.
pub record Schema : Type 0 where
  pub name : String
  pub validation_error : String → Option String
