-- ===== src/Job/Retries.antt =====
-- When a job of sirah/internal/job/job.c fails, waits and expires.
use native.Mathlib.Nat.{pow-le-pow_right}
use sirah_c.Prelude.{
  ℕ, zero, suc, ◌+◌, ◌^◌, ◌≤◌, ◌<◌, min, ◌≡◌, ◌↔◌, inl, inr, refl, Bool, true, false, List, [], ◌∷◌,
  String, arith, leb, some, ◌==◌, Option-cases, if◌then◌else◌, ℤ, pos, negsuc,
}
use sirah_c.Job.{Job, Manager, job_key, get}
use sirah_c.Table.{find, string_key, pair_key}
use sirah_c.Table.Entries.{find-All}
use sirah_c.Job.Pods.{
  on_status, with_success, with_failure, over_limit, expired, should_be_deleted_by_ttl,
  get_backoff_delay, clamp_count,
}
use sirah_c.Job.Calls.{Call, run}
use sirah_c.Job.Invariant.{run-HasValidJobs}
use sirah_c.Job.Validity.{IsValid}

-- What becomes of a pod of a job.
pub data Outcome : Type 0 where
  success : Outcome
  failure : Bool → ℕ → Outcome

unfoldable pub after : Job → List Outcome → Job
after j [] = j
after j (success ∷ os) = after (on_status with_success j) os
after j (failure retry now ∷ os) = after (on_status (with_failure retry now) j) os

-- The failures with a retry since the last success; those without one do not count.
unfoldable pub retries : ℕ → List Outcome → ℕ
retries n [] = n
retries n (success ∷ os) = retries 0 os
retries n (failure true now ∷ os) = retries (n + 1) os
retries n (failure false now ∷ os) = retries n os

failure_count-after :
    (j : Job) (os : List Outcome)
    → (after j os).status.failure_count ≡ retries j.status.failure_count os
unfolding after retries
failure_count-after j [] = refl
failure_count-after j (success ∷ os) = failure_count-after (on_status with_success j) os
failure_count-after j (failure true now ∷ os) =
    failure_count-after (on_status (with_failure true now) j) os
failure_count-after j (failure false now ∷ os) =
    failure_count-after (on_status (with_failure false now) j) os

pub spec-after : (j : Job) (os : List Outcome) → (after j os).spec ≡ j.spec
unfolding after
spec-after j [] = refl
spec-after j (success ∷ os) = spec-after (on_status with_success j) os
spec-after j (failure true now ∷ os) = spec-after (on_status (with_failure true now) j) os
spec-after j (failure false now ∷ os) = spec-after (on_status (with_failure false now) j) os

-- A job without failures and with a backoff limit that is not negative counts as failed, after any
-- outcomes of its pods, exactly when more pods have failed with a retry since the last success than the
-- limit. Failures without a retry, however many there are, have no part in it.
pub over_limit-after_iff :
    (j : Job) (limit : ℕ) (os : List Outcome)
    → j.spec.backoff_limit ≡ pos limit
    → j.status.failure_count ≡ 0
    → (over_limit (after j os) ≡ true) ↔ (limit < retries 0 os)
over_limit-after_iff j limit os limited fresh =
    rw (failure_count-after j os, spec-after j os, limited, fresh) (ground arith)

uncompleted_ttl :
    (now : ℕ) (ttl : ℤ) (time : ℕ)
    → time ≡ 0
    → (elim ttl as (λ t. Bool) [
      | pos n ↦ if leb n 0 then false else (if time == 0 then false else leb (time + n) now)
      | negsuc n ↦ false
    ])
      ≡ false
uncompleted_ttl now (pos n) time zero_time = ground arith
uncompleted_ttl now (negsuc n) time zero_time = refl

uncompleted_stays : (now : ℕ) (j : Job) → j.status.completion_time ≡ 0 → expired now j ≡ false
uncompleted_stays now j =
    uncompleted_ttl now j.spec.ttl_seconds_after_finished j.status.completion_time

-- After any calls on an empty table, and at any time, no job is due for deletion by its time to live:
-- nothing sets the time of completion.
pub never_expires :
    (m : Manager) (cs : List Call) (namespace name : String) (now : ℕ)
    → m.jobs ≡ []
    → should_be_deleted_by_ttl (run m cs) namespace name now ≡ false
unfolding should_be_deleted_by_ttl get
never_expires m cs namespace name now empty =
    elim (Option-cases (find job_key (namespace, name) (run m cs).jobs)) [
      | inl nowhere ↦ rw nowhere refl
      | inr (j, there) ↦
          let valid =
            find-All job_key IsValid (namespace, name) (run m cs).jobs j
              (run-HasValidJobs m cs empty).valid there in
          rw there (uncompleted_stays now j valid.uncompleted)
    ]

-- The delay after some failures is a second, doubled once for each failure and stopped at 32 seconds.
pub get_backoff_delay_lem :
    (failures : ℕ) → get_backoff_delay (pos failures) ≡ some (min (2 ^ failures) 32)
unfolding get_backoff_delay
get_backoff_delay_lem zero = refl
get_backoff_delay_lem (suc zero) = refl
get_backoff_delay_lem (suc (suc zero)) = refl
get_backoff_delay_lem (suc (suc (suc zero))) = refl
get_backoff_delay_lem (suc (suc (suc (suc zero)))) = refl
get_backoff_delay_lem (suc (suc (suc (suc (suc zero))))) = refl
get_backoff_delay_lem (suc (suc (suc (suc (suc (suc n)))))) =
    let doubled : 2 ^ 6 ≤ 2 ^ suc (suc (suc (suc (suc (suc n))))) =
      pow-le-pow_right (omega arith) {i = 6} (omega arith) in
    let clamped : clamp_count (pos (suc (suc (suc (suc (suc (suc n))))))) ≡ 6 = ground arith in
    let stopped : min (2 ^ suc (suc (suc (suc (suc (suc n)))))) 32 ≡ 32 = omega arith in
    rw (clamped, stopped) refl
