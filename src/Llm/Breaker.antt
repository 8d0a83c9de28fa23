-- ===== src/Llm/Breaker.antt =====
-- brain/llm/circuit_breaker.py: `CircuitState` and `CircuitBreaker`. The reading of the injected clock,
-- `time_fn()`, is the argument `now`, in units of the clock's resolution from any origin.
pub mod Refines
pub mod Transitions
use johnny.Prelude.{ℕ, ◌+◌, Bool, true, false, Option, none, some, ◌||◌, leb, if◌then◌else◌}

-- `opened` is CircuitState.OPEN; `open` is a reserved word.
pub data CircuitState : Type 0 where
  closed opened half_open : CircuitState

pub record CircuitBreaker : Type 0 where
  pub failure_threshold : ℕ
  pub reset_timeout : ℕ
  pub failures : ℕ
  pub opened_at : Option ℕ
  pub status : CircuitState

-- `__init__`
unfoldable pub new_breaker : ℕ → ℕ → CircuitBreaker
new_breaker failure_threshold reset_timeout = record {
  failure_threshold = failure_threshold;
  reset_timeout = reset_timeout;
  failures = 0;
  opened_at = none;
  status = CircuitState.closed;
}

-- `now - opened_at >= reset_timeout`, without the subtraction
unfoldable pub cooldown_elapsed : CircuitBreaker → ℕ → Bool
cooldown_elapsed b now = elim b.opened_at [
  | none ↦ false
  | some opened_at ↦ leb (opened_at + b.reset_timeout) now
]

abbrev pub is_half_open : CircuitState → Bool
is_half_open CircuitState.half_open = true
is_half_open _ = false

abbrev pub is_opened : CircuitState → Bool
is_opened CircuitState.opened = true
is_opened _ = false

-- The property `state`: reading it moves an open circuit that has cooled down to half-open.
unfoldable pub state : CircuitBreaker → ℕ → CircuitState × CircuitBreaker
unfolding cooldown_elapsed
state b now = elim b.status [
  | CircuitState.opened ↦
      if cooldown_elapsed b now
      then (CircuitState.half_open, record b { status = CircuitState.half_open })
      else (CircuitState.opened, b)
  | other ↦ (other, b)
]

abbrev pub lets_through : CircuitState → Bool
lets_through CircuitState.opened = false
lets_through _ = true

unfoldable pub allow : CircuitBreaker → ℕ → Bool × CircuitBreaker
unfolding state
allow b now = let (s, b') = state b now in (lets_through s, b')

unfoldable pub record_success : CircuitBreaker → CircuitBreaker
record_success b = record b { failures = 0; opened_at = none; status = CircuitState.closed }

unfoldable pub record_failure : CircuitBreaker → ℕ → CircuitBreaker
record_failure b now =
    let failures = b.failures + 1 in
    if is_half_open b.status || leb b.failure_threshold failures
    then record b { failures = failures; opened_at = some now; status = CircuitState.opened }
    else record b { failures = failures }
