-- ===== src/Job/Progress.antt =====
-- How the pods of a job of sirah/internal/job/job.c get made and how the job completes.
use sirah_c.Prelude.{
  ℕ, zero, suc, ◌+◌, ◌≤◌, ◌<◌, ◌≡◌, ◌↔◌, refl, ap, ◌∙◌, Bool, true, false, ◌||◌, ◌&&◌, List, [],
  ◌∷◌, String, eq_iff, arith, length, ltb, if◌then◌else◌, ℤ, pos, negsuc, at_least, above, below,
  excess,
}
use sirah_c.Job.{Job}
use sirah_c.Job.Pods.{
  on_status, with_pod, without_pod, with_success, with_failure, track, untrack, complete,
  wants_pods,
}
use sirah_c.Job.Retries.{Outcome, success, failure, after, spec-after}

-- One turn of a controller that runs one pod at a time: where the job wants more pods, one is created,
-- succeeds and is deleted.
abbrev pub serial_turn : String → Job → Job
serial_turn pod j =
    if wants_pods j
    then on_status (without_pod pod) (on_status with_success (on_status (with_pod pod) j))
    else j

unfoldable pub serial_turns : ℕ → String → Job → Job
serial_turns zero pod j = j
serial_turns (suc n) pod j = serial_turns n pod (serial_turn pod j)

-- What a turn finds: no pod is tracked and none failed.
pub record IsReady (c p b : ℕ) (j : Job) : Type 0 where
  pub completions : j.spec.completions ≡ pos c
  pub parallelism : j.spec.parallelism ≡ pos p
  pub backoff_limit : j.spec.backoff_limit ≡ pos b
  pub unsuspended : j.spec.suspend ≡ false
  pub untracked : j.status.pod_names ≡ []
  pub unfailed : j.status.failure_count ≡ 0

ready-wants_pods :
    (c p b : ℕ) (j : Job) → IsReady c p b j → 1 ≤ p → j.status.succeeded < c → wants_pods j ≡ true
ready-wants_pods c p b j r positive short =
    rw (r.unsuspended, r.completions, r.parallelism, r.backoff_limit, r.untracked, r.unfailed)
      (ground arith)

track-untrack : (pod : String) → untrack pod (track pod []) ≡ []
unfolding untrack
track-untrack pod = rw ((eq_iff pod pod).1 refl) refl

turn-IsReady :
    (c p b : ℕ) (pod : String) (j : Job)
    → IsReady c p b j
    → 1 ≤ p
    → j.status.succeeded < c
    → IsReady c p b (serial_turn pod j)
      × ((serial_turn pod j).status.succeeded ≡ j.status.succeeded + 1)
turn-IsReady c p b pod j r positive short = rw (ready-wants_pods c p b j r positive short) (
  record {
    completions = r.completions;
    parallelism = r.parallelism;
    backoff_limit = r.backoff_limit;
    unsuspended = r.unsuspended;
    untracked = ap (λ names. untrack pod (track pod names)) r.untracked ∙ track-untrack pod;
    unfailed = refl;
  },
  refl,
)

serial_turns-IsReady :
    (n c p b : ℕ) (pod : String) (j : Job)
    → IsReady c p b j
    → 1 ≤ p
    → j.status.succeeded + n ≤ c
    → IsReady c p b (serial_turns n pod j)
      × ((serial_turns n pod j).status.succeeded ≡ j.status.succeeded + n)
unfolding serial_turns
serial_turns-IsReady zero c p b pod j r positive within = (r, omega arith)
serial_turns-IsReady (suc n) c p b pod j r positive within =
    let next = turn-IsReady c p b pod j r positive (omega arith) in
    let later =
      serial_turns-IsReady n c p b pod (serial_turn pod j) next.0 positive
        (omega (arith, next.1)) in
    (later.0, omega (arith, later.1, next.1))

-- A job that is not suspended, tracks no pod and has not failed, with at least one pod allowed at a
-- time and a backoff limit that is not negative, is complete after as many turns as completions are
-- missing, and after none of the turns before: in each, the job wants a pod, which succeeds and is
-- deleted.
pub serial_turns-complete_iff :
    (n c p b : ℕ) (pod : String) (j : Job)
    → IsReady c p b j
    → 1 ≤ p
    → j.status.succeeded + n ≤ c
    → (complete (serial_turns n pod j) ≡ true) ↔ (j.status.succeeded + n ≡ c)
serial_turns-complete_iff n c p b pod j r positive within =
    let all = serial_turns-IsReady n c p b pod j r positive within in
    rw (all.0.completions, all.1) (ground arith)

pod_names-after : (j : Job) (os : List Outcome) → (after j os).status.pod_names ≡ j.status.pod_names
unfolding after
pod_names-after j [] = refl
pod_names-after j (success ∷ os) = pod_names-after (on_status with_success j) os
pod_names-after j (failure true now ∷ os) = pod_names-after (on_status (with_failure true now) j) os
pod_names-after j (failure false now ∷ os) =
    pod_names-after (on_status (with_failure false now) j) os

full_refuses :
    (a b : Bool) (n p : ℕ) (q : ℤ)
    → q ≡ pos p
    → p ≤ n
    → (if a then false else (below n q && b)) ≡ false
full_refuses a b n p (pos i) same full = ground arith
full_refuses a b n p (negsuc i) same full = ground arith

-- A job that tracks as many pods as may run at a time wants no more, whatever becomes of its pods and
-- however many completions are missing: pods that have succeeded or failed keep their places until
-- `job_delete_pod` is called for them.
pub tracked_pods_stall :
    (j : Job) (p : ℕ) (os : List Outcome)
    → j.spec.parallelism ≡ pos p
    → p ≤ length j.status.pod_names
    → wants_pods (after j os) ≡ false
tracked_pods_stall j p os parallel full =
    rw (pod_names-after j os, spec-after j os)
      (full_refuses
        (j.spec.suspend
          || at_least (after j os).status.succeeded j.spec.completions
          || above (after j os).status.failure_count j.spec.backoff_limit)
        (ltb 0 (excess j.spec.completions (after j os).status.succeeded))
        (length j.status.pod_names) p j.spec.parallelism parallel full)
