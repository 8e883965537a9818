-- ===== src/Job/Validity.antt =====
-- The limits on the numbers of one job of sirah/internal/job/job.c, and the changes that keep them.
use Prim.Native.String.{len}
use sirah_c.Prelude.{
  ◌==◌, ◌||◌, ℕ, ◌≤◌, ◌≡◌, inl, inr, refl, ◌∙◌, Bool, true, false, not, List, [], ◌∷◌, String,
  arith, length, length-append, is_between, Bool-cases, str_eq, if◌then◌else◌, if_elim, ltb,
}
use sirah_c.Table.{string_key, pair_key}
use sirah_c.Job.{Spec, Job, JobStatus, job_key, validate_spec, new_job, renewed}
use sirah_c.Job.Pods.{on_status, set_suspend, track, untrack}

-- A job with numbers within their limits, at most 1000 tracked pods, and no time of completion.
pub record IsValid (j : Job) : Type 0 where
  pub completions : is_between 1 10000 j.spec.completions ≡ true
  pub parallelism : is_between 1 1000 j.spec.parallelism ≡ true
  pub backoff_limit : is_between 0 100 j.spec.backoff_limit ≡ true
  pub restart_policy : is_between 0 2 j.spec.restart_policy ≡ true
  pub pods : length j.status.pod_names ≤ 1000
  pub uncompleted : j.status.completion_time ≡ 0

pub all_hold :
    (a b c d e : Bool)
    → (if a
        then false
        else (if not b then false else (if not c then false else (if not d then false else e))))
      ≡ true
    → (b ≡ true) × (c ≡ true) × (d ≡ true) × (e ≡ true)
all_hold a b c d e h = ground arith

pub validate_spec-true :
    (s : Spec)
    → validate_spec s ≡ true
    → (is_between 1 10000 s.completions ≡ true)
      × (is_between 1 1000 s.parallelism ≡ true)
      × (is_between 0 100 s.backoff_limit ≡ true)
      × (is_between 0 2 s.restart_policy ≡ true)
unfolding validate_spec
validate_spec-true s h =
    all_hold ((len s.name == 0) || ltb 253 (len s.name)) (is_between 1 10000 s.completions)
      (is_between 1 1000 s.parallelism) (is_between 0 100 s.backoff_limit)
      (is_between 0 2 s.restart_policy) h

-- A change of one job that keeps its name and its validity.
pub record Keeps (f : Job → Job) : Type 0 where
  pub key : (j : Job) → job_key (f j) ≡ job_key j
  pub valid : (j : Job) → IsValid j → IsValid (f j)

-- A change of the status alone.
pub on_status-Keeps :
    (f : JobStatus → JobStatus)
    → ((st : JobStatus) → length st.pod_names ≤ 1000 → length (f st).pod_names ≤ 1000)
    → ((st : JobStatus) → (f st).completion_time ≡ st.completion_time)
    → Keeps (on_status f)
on_status-Keeps f few time = record {
  key = λ j. refl;
  valid = λ j v. record {
    completions = v.completions;
    parallelism = v.parallelism;
    backoff_limit = v.backoff_limit;
    restart_policy = v.restart_policy;
    pods = few j.status v.pods;
    uncompleted = time j.status ∙ v.uncompleted;
  };
}

pub set_suspend-Keeps : (b : Bool) → Keeps (set_suspend b)
set_suspend-Keeps b = record {
  key = λ j. refl;
  valid = λ j v. record {
    completions = v.completions;
    parallelism = v.parallelism;
    backoff_limit = v.backoff_limit;
    restart_policy = v.restart_policy;
    pods = v.pods;
    uncompleted = v.uncompleted;
  };
}

pub new_job-IsValid :
    (namespace name : String) (sp : Spec) (now : ℕ)
    → validate_spec sp ≡ true
    → IsValid (new_job namespace name sp now)
new_job-IsValid namespace name sp now h =
    let each = validate_spec-true sp h in
    record {
      completions = each.0;
      parallelism = each.1;
      backoff_limit = each.2;
      restart_policy = each.3;
      pods = omega arith;
      uncompleted = refl;
    }

pub renewed-IsValid :
    (namespace name : String) (sp : Spec) (now : ℕ) (j : Job)
    → validate_spec sp ≡ true
    → IsValid j
    → IsValid (renewed namespace name sp now j)
renewed-IsValid namespace name sp now j h v =
    let each = validate_spec-true sp h in
    record {
      completions = each.0;
      parallelism = each.1;
      backoff_limit = each.2;
      restart_policy = each.3;
      pods = v.pods;
      uncompleted = v.uncompleted;
    }

pub track-few :
    (pod : String) (names : List String) → length names ≤ 1000 → length (track pod names) ≤ 1000
track-few pod names h =
    if_elim (λ ns. length ns ≤ 1000) (ltb (length names) 1000)
      (λ room. ground (arith, length-append names (pod ∷ []))) (λ full. h)

pub untrack-few : (pod : String) (names : List String) → length (untrack pod names) ≤ length names
unfolding untrack
untrack-few pod [] = omega arith
untrack-few pod (x ∷ xs) = elim (Bool-cases (str_eq x pod)) [
  | inl hit ↦ rw hit (omega arith)
  | inr miss ↦ rw miss (omega (arith, untrack-few pod xs))
]
