-- ===== src/CircuitBreaker/Backoff.antt =====
-- The delay that `calculate_exponential_backoff` of internal/resilience/circuit_breaker.c computes.
use native.Mathlib.Nat.{pow-zero}
use sirah_c.Prelude.{
  ℕ, zero, suc, ◌+◌, ◌-◌, ◌*◌, ◌/◌, ◌%◌, ◌^◌, ◌≤◌, ◌<◌, min, ◌≡◌, refl, true, arith, u32,
  mul-two-pow, le-mul-pow,
}
use sirah_c.CircuitBreaker.{Config, double_up, abs_u32, add_jitter, calculate_exponential_backoff}

-- The distance of `rand() % 21` from the middle of its range.
abbrev pub swing : ℕ → ℕ
swing random = (random % 21 - 10) + (10 - random % 21)

double_up_capped : (rounds backoff cap : ℕ) → backoff ≡ cap → double_up rounds backoff cap ≡ cap
unfolding double_up
double_up_capped zero backoff cap h = h
double_up_capped (suc rounds) backoff cap h = ground arith

-- The loop stops at the cap and doubles exactly below it.
double_up_lem :
    (rounds backoff top : ℕ)
    → top < 2147483648
    → backoff ≤ top
    → double_up rounds backoff top ≡ min (backoff * 2 ^ rounds) top
unfolding double_up
double_up_lem zero backoff top small h = omega (arith, pow-zero 2)
double_up_lem (suc rounds) backoff top small h =
    let exact : u32 (backoff * 2) ≡ backoff * 2 = omega arith in
    rw (exact, mul-two-pow backoff rounds)
      (ground (
        arith,
        le-mul-pow backoff (suc rounds),
        le-mul-pow (backoff * 2) rounds,
        mul-two-pow backoff rounds,
        double_up_lem rounds (backoff * 2) top small,
      ))

swing_lem : (random : ℕ) → abs_u32 (u32 (random % 21 + 4294967296 - 10)) ≡ swing random
unfolding abs_u32
swing_lem random = ground arith

mul-swing-le : (backoff random : ℕ) → backoff * swing random ≤ backoff * 10
mul-swing-le backoff random = let small : swing random ≤ 10 = omega arith in grind arith

add_jitter_lem :
    (backoff random top : ℕ)
    → top < 390000000
    → backoff ≤ top
    → add_jitter backoff random top ≡ min (backoff + backoff * swing random / 100) top
unfolding add_jitter
add_jitter_lem backoff random top small h =
    rw (swing_lem random) (ground (arith, mul-swing-le backoff random))

-- With backoff enabled, a first delay within the maximum, and a maximum below 390,000,000 ms, no
-- `uint32_t` wraps: the delay is the first delay doubled once for each failure and stopped at the
-- maximum, plus up to a tenth of that, stopped at the maximum again. So it never exceeds the maximum,
-- and the random part never shortens it.
pub calculate_exponential_backoff_lem :
    (c : Config) (failures random : ℕ)
    → c.use_exponential_backoff ≡ true
    → c.max_backoff_ms < 390000000
    → c.initial_backoff_ms ≤ c.max_backoff_ms
    → let base = min (c.initial_backoff_ms * 2 ^ failures) c.max_backoff_ms in
      let delay = calculate_exponential_backoff c failures random in
      (delay ≡ min (base + base * swing random / 100) c.max_backoff_ms)
      × (base ≤ delay)
      × (delay ≤ c.max_backoff_ms)
unfolding calculate_exponential_backoff
calculate_exponential_backoff_lem c failures random on small first =
    let base : ℕ = min (c.initial_backoff_ms * 2 ^ failures) c.max_backoff_ms in
    rw (on, double_up_lem failures c.initial_backoff_ms c.max_backoff_ms (omega arith) first)
      (rw (add_jitter_lem base random c.max_backoff_ms small (omega arith))
        (refl, omega arith, omega arith))
