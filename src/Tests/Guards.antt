-- ===== src/Tests/Guards.antt =====
-- The idempotency guard and the circuit breaker.
use foundation_protocol.Prelude.{ℕ, ◌≡◌, some, [], ◌∷◌, ◌==◌, if◌then◌else◌}
use foundation_protocol.Protocol.Errors.{ok, err, fp_error, conflict, rate_limited}
use foundation_protocol.Runtime.Idempotency
use foundation_protocol.Runtime.Idempotency.{IdempotencyGuard, check-store}
use foundation_protocol.Transport.Breaker.{
  CircuitBreakerConfig, before_call, breaker_after, refuses, success, failure, before_call-history,
}

abbrev guard : IdempotencyGuard ℕ
guard = record { cache = [] }

check-store_example : Idempotency.check (Idempotency.store guard "k" 7 "f") "k" (some "g") ≡ (
    if "k" == "k"
    then if "f" == "g" then ok (some 7) else err (fp_error conflict)
    else Idempotency.check guard "k" (some "g"))
check-store_example = check-store guard "k" "k" 7 "f" "g"

abbrev config : CircuitBreakerConfig
config = record { failure_threshold = 2; recovery_timeout = 10 }

before_call-history_example :
    before_call config 14 (breaker_after config (failure 5 ∷ failure 4 ∷ success ∷ [])) ≡ (
      if refuses config 14 (failure 5 ∷ failure 4 ∷ success ∷ [])
      then err (fp_error rate_limited)
      else ok tt)
before_call-history_example = before_call-history config (failure 5 ∷ failure 4 ∷ success ∷ []) 14
