-- ===== src/CircuitBreaker/Trip.antt =====
-- How internal/resilience/circuit_breaker.c opens and closes: runs of failures and of successes.
use native.Mathlib.Decide.{dec_lt}
use sirah_c.Prelude.{ℕ, suc, ◌+◌, ◌≤◌, ◌<◌, ◌≡◌, refl, ◌↔◌, List, [], ◌∷◌, arith, length}
use sirah_c.CircuitBreaker.{
  closed, opened, half_open, Config, Breaker, new, record_success, record_failure,
}

-- One failed request: when, with which HTTP code, and what `rand()` answers.
pub record Failure : Type 0 where
  pub now : ℕ
  pub error_code : ℕ
  pub random : ℕ

abbrev pub fail_all : Breaker → List Failure → Breaker
fail_all b [] = b
fail_all b (f ∷ fs) = fail_all (record_failure b f.now f.error_code f.random) fs

abbrev pub succeed_all : Breaker → List ℕ → Breaker
succeed_all b [] = b
succeed_all b (now ∷ ts) = succeed_all (record_success b now) ts

fail_all-opened :
    (b : Breaker) (fs : List Failure) → b.state ≡ opened → (fail_all b fs).state ≡ opened
fail_all-opened b [] h = h
fail_all-opened b (f ∷ fs) h =
    fail_all-opened (record_failure b f.now f.error_code f.random) fs
      (unfold record_failure in ground arith)

-- A closed breaker that has counted `k` failures, fewer than its threshold `t`.
record IsCounting (t : ℕ) (b : Breaker) (k : ℕ) : Type 0 where
  is_closed : b.state ≡ closed
  threshold : b.config.failure_threshold ≡ t
  counted : b.metrics.consecutive_failures ≡ k
  below : k < t

record_failure-IsCounting :
    (t : ℕ) (b : Breaker) (f : Failure) (k : ℕ)
    → t < 4294967296
    → IsCounting t b k
    → suc k < t
    → IsCounting t (record_failure b f.now f.error_code f.random) (suc k)
unfolding record_failure
record_failure-IsCounting t b f k w h more = ground arith

record_failure_trips :
    (t : ℕ) (b : Breaker) (f : Failure) (k : ℕ)
    → t < 4294967296
    → IsCounting t b k
    → t ≤ suc k
    → (record_failure b f.now f.error_code f.random).state ≡ opened
unfolding record_failure
record_failure_trips t b f k w h last = ground arith

fail_all_counting :
    (t : ℕ) (b : Breaker) (k : ℕ) (fs : List Failure)
    → t < 4294967296
    → IsCounting t b k
    → ((fail_all b fs).state ≡ opened) ↔ (t ≤ k + length fs)
fail_all_counting t b k [] w h = (λ e. absurd (ground arith), λ l. absurd (ground arith))
fail_all_counting t b k (f ∷ fs) w h = elim (dec_lt (suc k) t) [
  | yes more ↦
      let (to, from) =
        fail_all_counting t (record_failure b f.now f.error_code f.random) (suc k) fs w
          (record_failure-IsCounting t b f k w h more) in
      (λ e. omega (arith, to e), λ l. from (omega arith))
  | no last ↦
      (λ e. omega arith, λ l. fail_all-opened _ fs (record_failure_trips t b f k w h (omega arith)))
]

-- A new breaker is open after a run of failures exactly when the run reaches the failure threshold,
-- for a threshold from 1 up to the largest `uint32_t`.
pub new_trips :
    (c : Config) (fs : List Failure)
    → 0 < c.failure_threshold
    → c.failure_threshold < 4294967296
    → ((fail_all (new c) fs).state ≡ opened) ↔ (c.failure_threshold ≤ length fs)
unfolding new
new_trips c fs pos small =
    let (to, from) =
      fail_all_counting c.failure_threshold (new c) 0 fs small
        (record { is_closed = refl; threshold = refl; counted = refl; below = pos }) in
    (λ e. omega (arith, to e), λ l. from (omega arith))

-- A half-open breaker that has seen `k` successes, fewer than its threshold `t`.
record IsTesting (t : ℕ) (b : Breaker) (k : ℕ) : Type 0 where
  is_half_open : b.state ≡ half_open
  threshold : b.config.success_threshold ≡ t
  counted : b.half_open_successes ≡ k
  below : k < t

record_success-IsTesting :
    (t : ℕ) (b : Breaker) (now k : ℕ)
    → t < 4294967296
    → IsTesting t b k
    → suc k < t
    → IsTesting t (record_success b now) (suc k)
unfolding record_success
record_success-IsTesting t b now k w h more = ground arith

abbrev pub IsRecovered : Breaker → Type 0
IsRecovered b =
    (b.state ≡ closed)
    × (b.metrics.consecutive_failures ≡ 0)
    × (b.current_backoff_ms ≡ b.config.initial_backoff_ms)

record_success_closes :
    (t : ℕ) (b : Breaker) (now k : ℕ)
    → t < 4294967296
    → IsTesting t b k
    → t ≤ suc k
    → IsRecovered (record_success b now)
unfolding record_success
record_success_closes t b now k w h last = ground arith

record_success-IsRecovered :
    (b : Breaker) (now : ℕ) → IsRecovered b → IsRecovered (record_success b now)
unfolding record_success
record_success-IsRecovered b now h = ground arith

succeed_all-IsRecovered :
    (b : Breaker) (ts : List ℕ) → IsRecovered b → IsRecovered (succeed_all b ts)
succeed_all-IsRecovered b [] h = h
succeed_all-IsRecovered b (now ∷ ts) h =
    succeed_all-IsRecovered (record_success b now) ts (record_success-IsRecovered b now h)

succeed_all_testing :
    (t : ℕ) (b : Breaker) (k : ℕ) (ts : List ℕ)
    → t < 4294967296
    → IsTesting t b k
    → (k + length ts < t → (succeed_all b ts).state ≡ half_open)
      × (t ≤ k + length ts → IsRecovered (succeed_all b ts))
succeed_all_testing t b k [] w h = (λ l. h.is_half_open, λ l. absurd (omega arith))
succeed_all_testing t b k (now ∷ ts) w h = elim (dec_lt (suc k) t) [
  | yes more ↦
      let (short, full) =
        succeed_all_testing t (record_success b now) (suc k) ts w
          (record_success-IsTesting t b now k w h more) in
      (λ l. short (omega arith), λ l. full (omega arith))
  | no last ↦ (
    λ l. absurd (omega arith),
    λ l. succeed_all-IsRecovered _ ts (record_success_closes t b now k w h (omega arith)),
  )
]

-- A half-open breaker that has counted fewer successes than its success threshold is still half
-- open after a run of successes that falls short of the threshold; a run that reaches it leaves the
-- breaker closed, with no failure counted and with its first backoff restored.
pub half_open_recovers :
    (b : Breaker) (ts : List ℕ)
    → b.state ≡ half_open
    → b.half_open_successes < b.config.success_threshold
    → b.config.success_threshold < 4294967296
    → (b.half_open_successes + length ts < b.config.success_threshold
        → (succeed_all b ts).state ≡ half_open)
      × (b.config.success_threshold ≤ b.half_open_successes + length ts
          → IsRecovered (succeed_all b ts))
half_open_recovers b ts s below w =
    succeed_all_testing b.config.success_threshold b b.half_open_successes ts w
      (record { is_half_open = s; threshold = refl; counted = refl; below = below })
