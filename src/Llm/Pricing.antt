-- ===== src/Llm/Pricing.antt =====
-- brain/llm/pricing.py. `Decimal` amounts are whole numbers of millionths of a dollar, the precision
-- to which the code rounds; a price is in cents per million tokens.
use johnny.Prelude.{
  ℕ, ◌+◌, ◌*◌, ◌/◌, String, Option, none, some, List, [], ◌∷◌, ◌&&◌, ◌==◌, if◌then◌else◌,
}

pub record TokenPrice : Type 0 where
  pub input_per_million : ℕ
  pub output_per_million : ℕ

-- Keyed by provider and model.
abbrev pub pricing : List (String × String × TokenPrice)
pricing =
    ("groq", "llama-3.3-70b-versatile", record { input_per_million = 59; output_per_million = 79 })
    ∷ []

unfoldable pub price_of : List (String × String × TokenPrice) → String → String → Option TokenPrice
price_of [] provider model = none
price_of ((p, m, price) ∷ rest) provider model =
    if p == provider && m == model then some price else price_of rest provider model

-- cents/10^6 tokens · tokens = 10^-8 dollars: a hundredth of a millionth, rounded half up
unfoldable pub cost_at : Option TokenPrice → ℕ → ℕ → ℕ
cost_at none prompt_tokens completion_tokens = 0
cost_at (some price) prompt_tokens completion_tokens =
    (prompt_tokens * price.input_per_million + completion_tokens * price.output_per_million + 50)
    / 100

unfoldable pub estimate_cost : String → String → ℕ → ℕ → ℕ
unfolding price_of cost_at
estimate_cost provider model prompt_tokens completion_tokens =
    cost_at (price_of pricing provider model) prompt_tokens completion_tokens
