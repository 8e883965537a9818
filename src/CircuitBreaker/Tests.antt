-- ===== src/CircuitBreaker/Tests.antt =====
-- Runs of the breaker of internal/resilience/circuit_breaker.c, and the theorems at concrete inputs.
use sirah_c.Prelude.{
  ℕ, List, length, ◌+◌, ◌*◌, ◌/◌, ◌≤◌, ◌<◌, min, ◌≡◌, refl, true, [], ◌∷◌, map, arith,
}
use sirah_c.CircuitBreaker.{
  opened, half_open, Config, Breaker, new, record_failure, calculate_exponential_backoff,
}
use sirah_c.CircuitBreaker.Backoff.{swing, calculate_exponential_backoff_lem}
use sirah_c.CircuitBreaker.Trip.{
  Failure, fail_all, succeed_all, new_trips, IsRecovered, half_open_recovers,
}
use sirah_c.CircuitBreaker.Probing.{
  Event, success, request, resets, run, opened_fails_fast, probe_burst,
}

abbrev config : Config
config = record {
  failure_threshold = 2;
  success_threshold = 3;
  timeout_seconds = 30;
  max_half_open_requests = 3;
  use_exponential_backoff = true;
  initial_backoff_ms = 100;
  max_backoff_ms = 32000;
}

abbrev failure_at_5 : Failure
failure_at_5 = record { now = 5; error_code = 500; random = 7 }

abbrev tripped : Breaker
tripped = record (new config) { state = opened; next_retry_time = 35 }

abbrev testing : Breaker
testing = record (new config) { state = half_open }

tripped_at_5 : (fail_all (new config) (failure_at_5 ∷ failure_at_5 ∷ [])).next_retry_time ≡ 35
unfolding new record_failure
tripped_at_5 = refl

calculate_exponential_backoff_lem_example :
    let delay = calculate_exponential_backoff config 3 2 in
    (delay ≡ min (800 + 800 * swing 2 / 100) 32000) × (800 ≤ delay) × (delay ≤ 32000)
calculate_exponential_backoff_lem_example =
    calculate_exponential_backoff_lem config 3 2 refl (omega arith) (omega arith)

new_trips_example :
    ((fail_all (new config) (failure_at_5 ∷ failure_at_5 ∷ [])).state ≡ opened → 2 ≤ 2)
    × (2 ≤ 2 → (fail_all (new config) (failure_at_5 ∷ failure_at_5 ∷ [])).state ≡ opened)
new_trips_example = new_trips config (failure_at_5 ∷ failure_at_5 ∷ []) (omega arith) (omega arith)

half_open_recovers_example :
    (3 < 3 → (succeed_all testing (40 ∷ 41 ∷ 42 ∷ [])).state ≡ half_open)
    × (3 ≤ 3 → IsRecovered (succeed_all testing (40 ∷ 41 ∷ 42 ∷ [])))
unfolding new
half_open_recovers_example =
    half_open_recovers testing (40 ∷ 41 ∷ 42 ∷ []) refl (omega arith) (omega arith)

abbrev early : List Event
early = request 10 ∷ success 20 ∷ request 34 ∷ []

opened_fails_fast_example :
    ((run tripped early).0.state ≡ opened)
    × ((run tripped early).0.next_retry_time ≡ 35)
    × ((run tripped early).1 ≡ 0)
    × ((now : ℕ) (ts : List ℕ)
        → (run (run tripped early).0 (resets now ∷ map request ts)).1 ≡ length ts)
unfolding new
opened_fails_fast_example =
    opened_fails_fast tripped early refl
      ((omega arith, λ r. r), ((omega arith, λ r. r), ((omega arith, λ r. r), tt)))

probe_burst_example : (run tripped (map request (35 ∷ 35 ∷ 35 ∷ 35 ∷ 36 ∷ []))).1 ≡ 1 + min 4 2
unfolding new
probe_burst_example =
    probe_burst tripped 35 (35 ∷ 35 ∷ 35 ∷ 36 ∷ []) refl (omega arith) (omega arith)
