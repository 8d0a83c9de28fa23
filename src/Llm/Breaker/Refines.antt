-- ===== src/Llm/Breaker/Refines.antt =====
-- The circuit breaker against what it promises: it needs no more than the length of the present run of
-- failures and the time of the last one.
use johnny.Prelude.{
  ℕ, ◌+◌, ◌≤◌, ◌<◌, ◌≡◌, Bool, true, Option, some, List, [], ◌∷◌, arith, ltb, leb, if◌then◌else◌,
}
use johnny.Llm.Breaker.{
  CircuitState, CircuitBreaker, new_breaker, allow, record_success, record_failure,
}

-- What a caller of the breaker does, each at a clock reading: ask, or report how a call ended.
pub data Use : Type 0 where
  ask succeeded failed : ℕ → Use

abbrev pub time_of : Use → ℕ
time_of (ask t) = t
time_of (succeeded t) = t
time_of (failed t) = t

unfoldable pub apply : CircuitBreaker → Use → CircuitBreaker
unfolding allow record_success record_failure
apply b (ask t) = (allow b t).1
apply b (succeeded t) = record_success b
apply b (failed t) = record_failure b t

unfoldable pub run : CircuitBreaker → List Use → CircuitBreaker
run b [] = b
run b (u ∷ us) = run (apply b u) us

-- The specification: the failures since the last success, and when the last of them happened.
pub record Health : Type 0 where
  pub streak : ℕ
  pub last_failure : ℕ

abbrev pub after : Health → Use → Health
after h (ask t) = h
after h (succeeded t) = record { streak = 0; last_failure = h.last_failure }
after h (failed t) = record { streak = h.streak + 1; last_failure = t }

unfoldable pub health : Health → List Use → Health
health h [] = h
health h (u ∷ us) = health (after h u) us

-- A call may go ahead before the threshold is reached, and again once the cooldown after the last
-- failure is over.
abbrev pub may_call : (threshold reset : ℕ) → Health → ℕ → Bool
may_call threshold reset h now =
    if ltb h.streak threshold then true else leb (h.last_failure + reset) now

-- The clock never goes back.
abbrev pub IsTimed : ℕ → List Use → ℕ → Type 0
IsTimed t [] now = t ≤ now
IsTimed t (u ∷ us) now = (t ≤ time_of u) × IsTimed (time_of u) us now

abbrev StatusFits : CircuitState → Option ℕ → (threshold reset : ℕ) → Health → ℕ → Type 0
StatusFits CircuitState.closed at threshold reset h now = h.streak < threshold
StatusFits CircuitState.opened at threshold reset h now =
    (threshold ≤ h.streak) × (at ≡ some h.last_failure)
StatusFits CircuitState.half_open at threshold reset h now =
    (threshold ≤ h.streak) × (at ≡ some h.last_failure) × (h.last_failure + reset ≤ now)

record Tracks (threshold reset : ℕ) (b : CircuitBreaker) (h : Health) (now : ℕ) : Type 0 where
  threshold_eq : b.failure_threshold ≡ threshold
  reset_eq : b.reset_timeout ≡ reset
  failures_eq : b.failures ≡ h.streak
  fits : StatusFits b.status b.opened_at threshold reset h now

module _ (threshold reset : ℕ) (positive : 0 < threshold) where
  Tracks-apply :
      (b : CircuitBreaker) (h : Health) (now : ℕ) (u : Use)
      → now ≤ time_of u
      → Tracks threshold reset b h now
      → Tracks threshold reset (apply b u) (after h u) (time_of u)
  unfolding apply
  Tracks-apply b h now (ask t) le k = ground arith
  Tracks-apply b h now (succeeded t) le k = ground arith
  Tracks-apply b h now (failed t) le k = ground arith

  allow-may_call :
      (b : CircuitBreaker) (h : Health) (t now : ℕ)
      → t ≤ now
      → Tracks threshold reset b h t
      → (allow b now).0 ≡ may_call threshold reset h now
  unfolding allow
  allow-may_call b h t now le k = ground arith

  Tracks-run :
      (us : List Use) (b : CircuitBreaker) (h : Health) (t now : ℕ)
      → IsTimed t us now
      → Tracks threshold reset b h t
      → (allow (run b us) now).0 ≡ may_call threshold reset (health h us) now
  unfolding run health
  Tracks-run [] b h t now le k = allow-may_call b h t now le k
  Tracks-run (u ∷ us) b h t now le k =
      Tracks-run us (apply b u) (after h u) (time_of u) now le.1 (Tracks-apply b h t u le.0 k)

abbrev pub healthy : Health
healthy = record { streak = 0; last_failure = 0 }

-- A new breaker with a positive threshold, used in any way at clock readings that never go back, lets
-- the next call through exactly when the specification does: while the failures since the last
-- success are fewer than the threshold, or once the cooldown after the last failure is over.
pub allow-eq-may_call :
    (threshold reset : ℕ) (us : List Use) (now : ℕ)
    → 0 < threshold
    → IsTimed 0 us now
    → (allow (run (new_breaker threshold reset) us) now).0
      ≡ may_call threshold reset (health healthy us) now
allow-eq-may_call threshold reset us now positive timed =
    Tracks-run threshold reset positive us (new_breaker threshold reset) healthy 0 now timed
      (unfold new_breaker in ground arith)
