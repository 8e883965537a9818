-- ===== src/CircuitBreaker.antt =====
-- internal/resilience/circuit_breaker.{h,c}: the breaker's record and its operations. An argument is
-- the object that a pointer leads to (a null pointer is turned away before any state is read), and
-- `now` is what `time(NULL)` answers while the breaker's mutex is held. Counters are `uint32_t`.
pub mod Backoff
pub mod Trip
pub mod Probing
mod Tests
use sirah_c.Prelude.{
  ℕ, zero, suc, ◌+◌, ◌-◌, ◌*◌, ◌/◌, ◌%◌, Bool, true, false, ltb, leb, if◌then◌else◌, u32,
}

pub data State : Type 0 where
  closed opened half_open : State

pub record Metrics : Type 0 where
  pub total_requests : ℕ
  pub total_failures : ℕ
  pub consecutive_failures : ℕ
  pub last_error_code : ℕ
  pub last_failure_time : ℕ
  pub last_state_change : ℕ

pub record Config : Type 0 where
  pub failure_threshold : ℕ
  pub success_threshold : ℕ
  pub timeout_seconds : ℕ
  pub max_half_open_requests : ℕ
  pub use_exponential_backoff : Bool
  pub initial_backoff_ms : ℕ
  pub max_backoff_ms : ℕ

pub record Breaker : Type 0 where
  pub state : State
  pub config : Config
  pub metrics : Metrics
  pub current_backoff_ms : ℕ
  pub next_retry_time : ℕ
  pub half_open_requests : ℕ
  pub half_open_successes : ℕ

abbrev pub no_metrics : Metrics
no_metrics = record {
  total_requests = 0;
  total_failures = 0;
  consecutive_failures = 0;
  last_error_code = 0;
  last_failure_time = 0;
  last_state_change = 0;
}

unfoldable pub new : Config → Breaker
new c = record {
  state = closed;
  config = c;
  metrics = no_metrics;
  current_backoff_ms = c.initial_backoff_ms;
  next_retry_time = 0;
  half_open_requests = 0;
  half_open_successes = 0;
}

-- The doubling loop of `calculate_exponential_backoff`, with `rounds` for `failures - i`.
unfoldable pub double_up : ℕ → ℕ → ℕ → ℕ
double_up zero backoff cap = backoff
double_up (suc rounds) backoff cap =
    let next : ℕ = u32 (backoff * 2) in
    let rest = double_up rounds next cap in
    if ltb backoff cap then (if ltb cap next then cap else rest) else backoff

-- `abs` of a `uint32_t`, which is read as an `int`.
unfoldable pub abs_u32 : ℕ → ℕ
abs_u32 x = if ltb x 2147483648 then x else 4294967296 - x

-- `jitter_percent` is unsigned, so its test against 0 always passes.
unfoldable pub add_jitter : ℕ → ℕ → ℕ → ℕ
unfolding abs_u32
add_jitter backoff random cap =
    let jitter_percent : ℕ = u32 (random % 21 + 4294967296 - 10) in
    let jitter : ℕ = u32 (backoff * abs_u32 jitter_percent) / 100 in
    let jittered : ℕ =
      if leb 0 jitter_percent
      then u32 (backoff + jitter)
      else (if ltb jitter backoff then backoff - jitter else 1) in
    if ltb cap jittered then cap else jittered

-- `random` is what `rand()` answers.
unfoldable pub calculate_exponential_backoff : Config → ℕ → ℕ → ℕ
unfolding double_up add_jitter
calculate_exponential_backoff c failures random =
    if c.use_exponential_backoff
    then add_jitter (double_up failures c.initial_backoff_ms c.max_backoff_ms) random
        c.max_backoff_ms
    else 0

count_success : Breaker → Breaker
count_success b = record b {
  metrics = record m { total_requests = u32 (m.total_requests + 1); last_failure_time = 0 };
}
  where
    open b use {metrics as m}

close : Breaker → ℕ → Breaker
close b now = record b {
  state = closed;
  metrics = record m { consecutive_failures = 0; last_state_change = now };
  current_backoff_ms = b.config.initial_backoff_ms;
  half_open_requests = 0;
  half_open_successes = 0;
}
  where
    open b use {metrics as m}

success_in : State → Breaker → ℕ → Breaker
unfolding close
success_in closed b now = record b { metrics = record m { consecutive_failures = 0 } }
  where
    open b use {metrics as m}
success_in opened b now = b
success_in half_open b now =
    let counted = record b {
      half_open_successes = u32 (b.half_open_successes + 1);
      half_open_requests = u32 (b.half_open_requests + 4294967296 - 1);
    } in
    if leb b.config.success_threshold (u32 (b.half_open_successes + 1))
    then close counted now
    else counted

unfoldable pub record_success : Breaker → ℕ → Breaker
unfolding count_success success_in
record_success b now = success_in b.state (count_success b) now

count_failure : Breaker → ℕ → ℕ → Breaker
count_failure b now error_code = record b {
  metrics = record m {
    total_requests = u32 (m.total_requests + 1);
    total_failures = u32 (m.total_failures + 1);
    consecutive_failures = u32 (m.consecutive_failures + 1);
    last_error_code = error_code;
    last_failure_time = now;
  };
}
  where
    open b use {metrics as m}

failure_in : State → Breaker → ℕ → ℕ → Breaker
failure_in closed b now random =
    if leb b.config.failure_threshold b.metrics.consecutive_failures
    then record b {
      state = opened;
      current_backoff_ms = b.config.initial_backoff_ms;
      next_retry_time = now + b.config.timeout_seconds;
      metrics = record m { last_state_change = now };
    }
    else b
  where
    open b use {metrics as m}
failure_in opened b now random = b
failure_in half_open b now random =
    let backoff : ℕ =
      calculate_exponential_backoff b.config b.metrics.consecutive_failures random in
    record b {
      state = opened;
      current_backoff_ms = backoff;
      next_retry_time = now + backoff / 1000;
      half_open_requests = 0;
      half_open_successes = 0;
      metrics = record m { last_state_change = now };
    }
  where
    open b use {metrics as m}

unfoldable pub record_failure : Breaker → ℕ → ℕ → ℕ → Breaker
unfolding count_failure failure_in
record_failure b now error_code random =
    failure_in b.state (count_failure b now error_code) now random

pub allow_in : State → Breaker → ℕ → Breaker × Bool
allow_in closed b now = (b, true)
allow_in opened b now =
    if leb b.next_retry_time now
    then (
      record b {
        state = half_open;
        half_open_requests = 1;
        half_open_successes = 0;
        metrics = record m { last_state_change = now };
      },
      true,
    )
    else (b, false)
  where
    open b use {metrics as m}
allow_in half_open b now =
    if ltb b.half_open_requests b.config.max_half_open_requests
    then (record b { half_open_requests = u32 (b.half_open_requests + 1) }, true)
    else (b, false)

unfoldable pub allow_request : Breaker → ℕ → Breaker × Bool
unfolding allow_in
allow_request b now = allow_in b.state b now

backoff_in : State → Breaker → ℕ → ℕ
backoff_in opened b now =
    if leb b.next_retry_time now then 0 else u32 ((b.next_retry_time - now) * 1000)
backoff_in _ b now = 0

unfoldable pub get_backoff_ms : Breaker → ℕ → ℕ
unfolding backoff_in
get_backoff_ms b now = backoff_in b.state b now

unfoldable pub reset : Breaker → ℕ → Breaker
reset b now = record b {
  state = closed;
  metrics = record no_metrics { last_state_change = now };
  current_backoff_ms = b.config.initial_backoff_ms;
  next_retry_time = 0;
  half_open_requests = 0;
  half_open_successes = 0;
}
