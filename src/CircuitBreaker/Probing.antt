-- ===== src/CircuitBreaker/Probing.antt =====
-- What internal/resilience/circuit_breaker.c lets through while it is open or half open.
use sirah_c.Prelude.{
  ℕ, ◌+◌, ◌-◌, ◌*◌, ◌≤◌, ◌<◌, min, ◌≡◌, refl, ap, ◌∙◌, ◌↔◌, true, List, [], ◌∷◌, arith, length, map,
  All, if◌then◌else◌,
}
use sirah_c.CircuitBreaker.{
  closed, opened, half_open, reset, Config, Breaker, record_success, record_failure, allow_request,
  get_backoff_ms, allow_in,
}

-- What callers do to a breaker, with the time of each call.
pub data Event : Type 0 where
  success : ℕ → Event
  failure : ℕ → ℕ → ℕ → Event
  request : ℕ → Event
  resets : ℕ → Event

abbrev pub time : Event → ℕ
time (success now) = now
time (failure now error_code random) = now
time (request now) = now
time (resets now) = now

abbrev pub IsReset : Event → Type 0
IsReset (resets now) = Unit
IsReset _ = ⊥

-- The breaker after a call, and the number of requests let through.
abbrev pub step : Breaker → Event → Breaker × ℕ
step b (success now) = (record_success b now, 0)
step b (failure now error_code random) = (record_failure b now error_code random, 0)
step b (request now) = let (b', allowed) = allow_request b now in (b', if allowed then 1 else 0)
step b (resets now) = (reset b now, 0)

abbrev pub run : Breaker → List Event → Breaker × ℕ
run b [] = (b, 0)
run b (e ∷ es) = let (b', n) = step b e in let (b'', m) = run b' es in (b'', n + m)

step_opened :
    (b : Breaker) (e : Event)
    → b.state ≡ opened
    → time e < b.next_retry_time
    → ¬ (IsReset e)
    → ((step b e).0.state ≡ opened)
      × ((step b e).0.next_retry_time ≡ b.next_retry_time)
      × ((step b e).1 ≡ 0)
unfolding record_success record_failure allow_request
step_opened b (success now) o h report = ground arith
step_opened b (failure now error_code random) o h report = ground arith
step_opened b (request now) o h report = ground arith
step_opened b (resets now) o h report = absurd (report tt)

run_opened :
    (retry : ℕ) (b : Breaker) (es : List Event)
    → b.state ≡ opened
    → b.next_retry_time ≡ retry
    → All (λ e. (time e < retry) × ¬ (IsReset e)) es
    → ((run b es).0.state ≡ opened) × ((run b es).0.next_retry_time ≡ retry) × ((run b es).1 ≡ 0)
run_opened retry b [] o r h = (o, r, refl)
run_opened retry b (e ∷ es) o r h =
    let (o', r', none_yet) = step_opened b e o (omega arith) h.0.1 in
    let (o'', r'', none_later) = run_opened retry (step b e).0 es o' (r' ∙ r) h.1 in
    (o'', r'', omega arith)

run_closed : (b : Breaker) (ts : List ℕ) → b.state ≡ closed → (run b (map request ts)).1 ≡ length ts
unfolding allow_request
run_closed b [] c = refl
run_closed b (now ∷ ts) c =
    let passes : allow_request b now ≡ (b, true) = ap (λ s. allow_in s b now) c in
    rw passes (omega (arith, run_closed b ts c))

-- While every call comes before its retry time and none is a reset, an open breaker stays open with the
-- same retry time, whatever successes and failures are reported and whatever requests come, and lets no
-- request through. A reset then closes it, and it lets through every request that comes before a report.
pub opened_fails_fast :
    (b : Breaker) (es : List Event)
    → b.state ≡ opened
    → All (λ e. (time e < b.next_retry_time) × ¬ (IsReset e)) es
    → ((run b es).0.state ≡ opened)
      × ((run b es).0.next_retry_time ≡ b.next_retry_time)
      × ((run b es).1 ≡ 0)
      × ((now : ℕ) (ts : List ℕ) → (run (run b es).0 (resets now ∷ map request ts)).1 ≡ length ts)
opened_fails_fast b es o h =
    let (stays, same, nothing) = run_opened b.next_retry_time b es o refl h in
    (
      stays,
      same,
      nothing,
      λ now ts. omega (arith, run_closed (reset (run b es).0 now) ts (unfold reset in refl)),
    )

abbrev requests : List ℕ → List Event
requests = map request

step_half_open :
    (b : Breaker) (now : ℕ)
    → b.state ≡ half_open
    → b.config.max_half_open_requests < 4294967296
    → let (b', n) = step b (request now) in
      (b'.state ≡ half_open)
      × (b'.config ≡ b.config)
      × (n + (b'.config.max_half_open_requests - b'.half_open_requests)
          ≡ b.config.max_half_open_requests - b.half_open_requests)
      × (n ≡ min 1 (b.config.max_half_open_requests - b.half_open_requests))
unfolding allow_request
step_half_open b now s w = ground arith

-- A half-open breaker that gets requests only lets through as many as it has free slots.
run_half_open :
    (b : Breaker) (ts : List ℕ)
    → b.state ≡ half_open
    → b.config.max_half_open_requests < 4294967296
    → (run b (requests ts)).1
      ≡ min (length ts) (b.config.max_half_open_requests - b.half_open_requests)
run_half_open b [] s w = omega arith
run_half_open b (now ∷ ts) s w =
    let (s', c', slots, one) = step_half_open b now s w in
    let b' = (step b (request now)).0 in
    let w' : b'.config.max_half_open_requests < 4294967296 = rw c' w in
    omega (arith, run_half_open b' ts s' w', slots, one)

step_reopen :
    (b : Breaker) (now : ℕ)
    → b.state ≡ opened
    → b.next_retry_time ≤ now
    → let (b', n) = step b (request now) in
      (b'.state ≡ half_open) × (b'.config ≡ b.config) × (b'.half_open_requests ≡ 1) × (n ≡ 1)
unfolding allow_request
step_reopen b now o h = ground arith

-- Once its retry time has come, an open breaker that gets a burst of requests and no report lets the
-- first through and then as many as `max_half_open_requests` leaves beside it, however many come. (So
-- a maximum of 0 still lets one through.)
pub probe_burst :
    (b : Breaker) (now : ℕ) (ts : List ℕ)
    → b.state ≡ opened
    → b.next_retry_time ≤ now
    → b.config.max_half_open_requests < 4294967296
    → (run b (requests (now ∷ ts))).1 ≡ 1 + min (length ts) (b.config.max_half_open_requests - 1)
probe_burst b now ts o h w =
    let (s', c', first, one) = step_reopen b now o h in
    let b' = (step b (request now)).0 in
    let w' : b'.config.max_half_open_requests < 4294967296 = rw c' w in
    let m' : b'.config.max_half_open_requests ≡ b.config.max_half_open_requests =
      ap (λ (c : Config). c.max_half_open_requests) c' in
    omega (arith, run_half_open b' ts s' w', first, one, m')

-- In the open state the wait that callers are told is 0 exactly when a request would be let through,
-- as long as the wait in milliseconds fits a `uint32_t`.
pub backoff-allow_request :
    (b : Breaker) (now : ℕ)
    → b.state ≡ opened
    → (b.next_retry_time - now) * 1000 < 4294967296
    → (get_backoff_ms b now ≡ 0) ↔ ((allow_request b now).1 ≡ true)
unfolding get_backoff_ms allow_request
backoff-allow_request b now o h = ground arith

stale_success :
    (b : Breaker) (now : ℕ)
    → b.state ≡ half_open
    → b.half_open_requests ≡ 0
    → b.half_open_successes + 1 < b.config.success_threshold
    → b.config.success_threshold < 4294967296
    → ((record_success b now).state ≡ half_open)
      × ((record_success b now).config ≡ b.config)
      × ((record_success b now).half_open_requests ≡ 4294967295)
unfolding record_success
stale_success b now s z below w = ground arith

-- A half-open breaker with no probe counted that hears of one more success, of a request let through
-- before it opened, say, counts 2^32 - 1 probes. Short of the success threshold, it then refuses every
-- request, at any time, until a report changes its state.
pub stale_success_wedges :
    (b : Breaker) (now : ℕ) (ts : List ℕ)
    → b.state ≡ half_open
    → b.half_open_requests ≡ 0
    → b.half_open_successes + 1 < b.config.success_threshold
    → b.config.success_threshold < 4294967296
    → b.config.max_half_open_requests < 4294967296
    → (run (record_success b now) (requests ts)).1 ≡ 0
stale_success_wedges b now ts s z below w m =
    let (s', c', full) = stale_success b now s z below w in
    let b' = record_success b now in
    let w' : b'.config.max_half_open_requests < 4294967296 = rw c' m in
    omega (arith, run_half_open b' ts s' w', full)

-- A failure of a half-open breaker whose new backoff is under a second leaves it open with a retry time
-- that has come already: the very next request is let through.
pub short_backoff_admits :
    (b : Breaker) (now error_code random : ℕ)
    → b.state ≡ half_open
    → (record_failure b now error_code random).current_backoff_ms < 1000
    → ((record_failure b now error_code random).state ≡ opened)
      × ((allow_request (record_failure b now error_code random) now).1 ≡ true)
unfolding record_failure allow_request
short_backoff_admits b now error_code random s short = ground arith
