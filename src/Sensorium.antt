-- ===== src/Sensorium.antt =====
-- brain/agents/sensorium.py: the queue of raw inputs between the interfaces and the Sensorium, a Redis
-- list. Its items are kept as they are, without the JSON text between.
pub mod Fifo
use johnny.Prelude.{ℕ, String, List, [], ◌∷◌, ◌++◌, length, take, drop}

pub record RawInput : Type 0 where
  pub raw : String
  pub source : String
  pub modality : String

abbrev pub modality_text : String
modality_text = "text"

abbrev pub max_drain_per_tick : ℕ
max_drain_per_tick = 16

abbrev pub InputQueue : Type 0
InputQueue = List RawInput

-- `RPUSH`
unfoldable pub push : String → (source modality : String) → InputQueue → InputQueue
push raw source modality queue =
    queue ++ record { raw = raw; source = source; modality = modality } ∷ []

-- `LPOP` with a count
unfoldable pub drain : ℕ → InputQueue → List RawInput × InputQueue
drain max_items queue = (take max_items queue, drop max_items queue)

unfoldable pub depth : InputQueue → ℕ
depth queue = length queue
