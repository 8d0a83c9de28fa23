-- ===== src/Llm/Breaker/Transitions.antt =====
-- What single steps of the circuit breaker do, from any state.
use johnny.Prelude.{ℕ, ◌+◌, ◌≤◌, ◌<◌, ◌≡◌, true, false, some, arith}
use johnny.Llm.Breaker.{CircuitState, CircuitBreaker, allow, record_failure}

-- A trial that fails opens the circuit again and starts the cooldown anew, whatever the count of
-- failures; the circuit then refuses every call until the cooldown is over, and the call at its end
-- is again a trial.
pub record_failure-half_open :
    (b : CircuitBreaker) (now later : ℕ)
    → b.status ≡ CircuitState.half_open
    → now ≤ later
    → (later < now + b.reset_timeout → (allow (record_failure b now) later).0 ≡ false)
      × (now + b.reset_timeout ≤ later
          → ((allow (record_failure b now) later).0 ≡ true)
            × ((allow (record_failure b now) later).1.status ≡ CircuitState.half_open))
unfolding record_failure allow
record_failure-half_open b now later h le = ground arith

-- An open circuit that has cooled down lets a call through and becomes half-open; from then on it
-- lets every further call through as well, until a result is reported.
pub allow_twice-half_open :
    (b : CircuitBreaker) (opened_at now later : ℕ)
    → b.status ≡ CircuitState.opened
    → b.opened_at ≡ some opened_at
    → opened_at + b.reset_timeout ≤ now
    → let trial = (allow b now).1 in
      ((allow b now).0 ≡ true) × ((allow trial later).0 ≡ true) × ((allow trial later).1 ≡ trial)
unfolding allow
allow_twice-half_open b opened_at now later o at le = ground arith
