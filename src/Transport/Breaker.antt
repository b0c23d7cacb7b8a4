-- ===== src/Transport/Breaker.antt =====
-- The circuit breaker of src/fp/transport/reliability.py. `time.monotonic()` is an argument: a number
-- of ticks that does not go down from one call to the next.
use foundation_protocol.Prelude.{
  ℕ, suc, ◌-◌, ◌<◌, ◌≡◌, refl, Bool, false, ◌&&◌, Option, none, some, List, [], ◌∷◌, arith, ltb,
  leb, if◌then◌else◌,
}
use foundation_protocol.Protocol.Errors.{Result, ok, err, value_error, fp_error, rate_limited}
use foundation_protocol.Protocol.Models.Signed.{ℤ, pos}

pub record CircuitBreakerConfig : Type 0 where
  pub failure_threshold : ℕ
  pub recovery_timeout : ℕ

unfoldable pub init_config : ℤ → ℤ → Result CircuitBreakerConfig
init_config (pos (suc n)) (pos timeout) =
    ok (record { failure_threshold = suc n; recovery_timeout = timeout })
init_config _ _ = err value_error

pub record CircuitBreaker : Type 0 where
  pub failure_count : ℕ
  pub opened_at : Option ℕ

abbrev init_breaker : CircuitBreaker
init_breaker = record { failure_count = 0; opened_at = none }

module _ (config : CircuitBreakerConfig) where
  abbrev refused : ℕ → Option ℕ → Result (Unit {0})
  refused now none = ok tt
  refused now (some opened) =
      if leb config.recovery_timeout (now - opened) then ok tt else err (fp_error rate_limited)

  unfoldable pub before_call : ℕ → CircuitBreaker → Result (Unit {0})
  before_call now breaker = refused now breaker.opened_at

  unfoldable pub record_failure : ℕ → CircuitBreaker → CircuitBreaker
  record_failure now breaker =
      let count = suc breaker.failure_count in
      record {
        failure_count = count;
        opened_at = if leb config.failure_threshold count then some now else breaker.opened_at;
      }

unfoldable pub record_success : CircuitBreaker → CircuitBreaker
record_success breaker = record { failure_count = 0; opened_at = none }

-- How a call of the remote ended: a failure has its time.
pub data Outcome : Type 0 where
  success : Outcome
  failure : ℕ → Outcome

-- The breaker after a history of outcomes, the latest first.
unfoldable pub breaker_after : CircuitBreakerConfig → List Outcome → CircuitBreaker
unfolding record_failure record_success
breaker_after config [] = init_breaker
breaker_after config (success ∷ history) = record_success (breaker_after config history)
breaker_after config (failure now ∷ history) =
    record_failure config now (breaker_after config history)

-- The number of failures since the last success.
abbrev streak : List Outcome → ℕ
streak [] = 0
streak (success ∷ history) = 0
streak (failure _ ∷ history) = suc (streak history)

-- Whether a history refuses a call at `now`: there are `failure_threshold` failures in a row, and
-- less than the timeout has passed since the last of them.
abbrev pub refuses : CircuitBreakerConfig → ℕ → List Outcome → Bool
refuses config now (failure last ∷ history) =
    leb config.failure_threshold (suc (streak history)) && ltb (now - last) config.recovery_timeout
refuses config now _ = false

failure_count-streak :
    (config : CircuitBreakerConfig) (history : List Outcome)
    → (breaker_after config history).failure_count ≡ streak history
unfolding breaker_after
failure_count-streak config [] = refl
failure_count-streak config (success ∷ history) = refl
failure_count-streak config (failure now ∷ history) =
    ground (arith, failure_count-streak config history)

closed_below :
    (config : CircuitBreakerConfig) (history : List Outcome)
    → streak history < config.failure_threshold
    → (breaker_after config history).opened_at ≡ none
unfolding breaker_after
closed_below config [] below = refl
closed_below config (success ∷ history) below = refl
closed_below config (failure now ∷ history) below =
    ground (arith, failure_count-streak config history, closed_below config history, below)

-- After any history of outcomes the circuit breaker refuses a call exactly if the last outcomes are
-- at least `failure_threshold` failures in a row, one at least, and less than the recovery timeout
-- has passed since the last of them.
pub before_call-history :
    (config : CircuitBreakerConfig) (history : List Outcome) (now : ℕ)
    → before_call config now (breaker_after config history)
      ≡ (if refuses config now history then err (fp_error rate_limited) else ok tt)
unfolding before_call breaker_after
before_call-history config [] now = refl
before_call-history config (success ∷ history) now = refl
before_call-history config (failure last ∷ history) now =
    ground (arith, failure_count-streak config history, closed_below config history)
