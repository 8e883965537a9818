-- ===== src/Job/Pods.antt =====
-- sirah/internal/job/job.c: what changes the status of one job, and the questions about it.
use sirah_c.Prelude.{
  ℕ, ◌+◌, ◌-◌, Bool, true, false, ◌&&◌, ◌||◌, Option, none, some, List, [], ◌∷◌, ◌++◌, String,
  str_eq, ltb, leb, ◌==◌, if◌then◌else◌, length, get_elem?, ℤ, pos, negsuc, at_least, above, below,
  excess,
}
use sirah_c.Table.{change, string_key, pair_key}
use sirah_c.Job.{Status, Job, JobStatus, Manager, job_key, put_jobs, get}

abbrev pub on_status : (JobStatus → JobStatus) → Job → Job
on_status f j = record j { status = f j.status }

-- A change of the job of a name, or an error.
unfoldable pub on_job : Manager → String → String → (Job → Job) → Manager × Status
unfolding change
on_job m namespace name f = put_jobs m (change job_key (namespace, name) (λ j. some (f j)) m.jobs)

abbrev pub track : String → List String → List String
track pod_name names = if ltb (length names) 1000 then names ++ pod_name ∷ [] else names

abbrev pub with_pod : String → JobStatus → JobStatus
with_pod pod_name s = record s { pod_names = track pod_name s.pod_names; active = s.active + 1 }

unfoldable pub create_pod : Manager → String → String → String → Manager × Status
unfolding on_job
create_pod m namespace job_name pod_name =
    on_job m namespace job_name (on_status (with_pod pod_name))

-- The names without the first one that is equal.
unfoldable pub untrack : String → List String → List String
untrack pod_name [] = []
untrack pod_name (x ∷ xs) = if str_eq x pod_name then xs else x ∷ untrack pod_name xs

abbrev pub without_pod : String → JobStatus → JobStatus
without_pod pod_name s = record s {
  pod_names = untrack pod_name s.pod_names;
  active = s.active - 1;
}

unfoldable pub delete_pod : Manager → String → String → String → Manager × Status
unfolding on_job untrack
delete_pod m namespace job_name pod_name =
    on_job m namespace job_name (on_status (without_pod pod_name))

abbrev pub with_success : JobStatus → JobStatus
with_success s = record s { succeeded = s.succeeded + 1; active = s.active - 1; failure_count = 0 }

unfoldable pub mark_pod_succeeded : Manager → String → String → Manager × Status
unfolding on_job
mark_pod_succeeded m namespace job_name = on_job m namespace job_name (on_status with_success)

abbrev pub with_failure : Bool → ℕ → JobStatus → JobStatus
with_failure true now s = record s {
  failure_count = s.failure_count + 1;
  active = s.active - 1;
  last_failure_time = now;
}
with_failure false now s = record s {
  failed = s.failed + 1;
  active = s.active - 1;
  last_failure_time = now;
}

unfoldable pub mark_pod_failed : Manager → String → String → Bool → ℕ → Manager × Status
unfolding on_job
mark_pod_failed m namespace job_name retry now =
    on_job m namespace job_name (on_status (with_failure retry now))

abbrev pub with_counts : ℕ → ℕ → ℕ → JobStatus → JobStatus
with_counts active succeeded failed s = record s {
  active = active;
  succeeded = succeeded;
  failed = failed;
}

unfoldable pub update_status : Manager → String → String → ℕ → ℕ → ℕ → Manager × Status
unfolding on_job
update_status m namespace job_name active succeeded failed =
    on_job m namespace job_name (on_status (with_counts active succeeded failed))

abbrev pub one_failure : ℕ → JobStatus → JobStatus
one_failure now s = record s { failure_count = s.failure_count + 1; last_failure_time = now }

unfoldable pub record_pod_failure : Manager → String → String → ℕ → Manager × Status
unfolding on_job
record_pod_failure m namespace job_name now =
    on_job m namespace job_name (on_status (one_failure now))

abbrev pub no_failures : JobStatus → JobStatus
no_failures s = record s { failure_count = 0 }

unfoldable pub reset_failure_count : Manager → String → String → Manager × Status
unfolding on_job
reset_failure_count m namespace job_name = on_job m namespace job_name (on_status no_failures)

abbrev pub set_suspend : Bool → Job → Job
set_suspend b j = record j { spec = record j.spec { suspend = b } }

unfoldable pub suspend : Manager → String → String → Manager × Status
unfolding on_job
suspend m namespace job_name = on_job m namespace job_name (set_suspend true)

unfoldable pub resume : Manager → String → String → Manager × Status
unfolding on_job
resume m namespace job_name = on_job m namespace job_name (set_suspend false)

-- A question about the job of a name, with an answer where there is none.
abbrev pub ask {ℓ} : {A : Type ℓ} → A → (Job → A) → Option Job → A
ask otherwise f none = otherwise
ask otherwise f (some j) = f j

abbrev pub complete : Job → Bool
complete j = at_least j.status.succeeded j.spec.completions

unfoldable pub is_complete : Manager → String → String → Bool
unfolding get
is_complete m namespace job_name = ask false complete (get m namespace job_name)

-- Also `job_has_exceeded_backoff_limit`.
abbrev pub over_limit : Job → Bool
over_limit j = above j.status.failure_count j.spec.backoff_limit

unfoldable pub is_failed : Manager → String → String → Bool
unfolding get
is_failed m namespace job_name = ask false over_limit (get m namespace job_name)

unfoldable pub has_exceeded_backoff_limit : Manager → String → String → Bool
unfolding get
has_exceeded_backoff_limit m namespace job_name = ask false over_limit (get m namespace job_name)

unfoldable pub is_suspended : Manager → String → String → Bool
unfolding get
is_suspended m namespace job_name = ask false (λ j. j.spec.suspend) (get m namespace job_name)

abbrev pub remaining : Job → ℕ
remaining j = excess j.spec.completions j.status.succeeded

abbrev pub desired : Job → ℤ
desired j = if below (remaining j) j.spec.parallelism then pos (remaining j) else j.spec.parallelism

unfoldable pub get_desired_pod_count : Manager → String → String → ℤ
unfolding get
get_desired_pod_count m namespace job_name = ask (pos 0) desired (get m namespace job_name)

unfoldable pub get_remaining_completions : Manager → String → String → ℕ
unfolding get
get_remaining_completions m namespace job_name = ask 0 remaining (get m namespace job_name)

unfoldable pub get_current_pod_count : Manager → String → String → ℕ
unfolding get
get_current_pod_count m namespace job_name =
    ask 0 (λ j. length j.status.pod_names) (get m namespace job_name)

abbrev pub wants_pods : Job → Bool
wants_pods j =
    if j.spec.suspend || complete j || over_limit j
    then false
    else below (length j.status.pod_names) j.spec.parallelism && ltb 0 (remaining j)

unfoldable pub should_create_more_pods : Manager → String → String → Bool
unfolding get
should_create_more_pods m namespace job_name = ask false wants_pods (get m namespace job_name)

unfoldable pub should_terminate_all_pods : Manager → String → String → Bool
unfolding get
should_terminate_all_pods m namespace job_name =
    ask false (λ j. j.spec.suspend || over_limit j) (get m namespace job_name)

abbrev pub expired : ℕ → Job → Bool
expired now j = elim j.spec.ttl_seconds_after_finished [
  | pos ttl ↦
      if leb ttl 0
      then false
      else (if j.status.completion_time == 0
          then false
          else leb (j.status.completion_time + ttl) now)
  | negsuc n ↦ false
]

unfoldable pub should_be_deleted_by_ttl : Manager → String → String → ℕ → Bool
unfolding get
should_be_deleted_by_ttl m namespace job_name now =
    ask false (expired now) (get m namespace job_name)

-- `none` is -1, for a job without a time to live.
abbrev pub ttl_left : ℕ → Job → Option ℕ
ttl_left now j = elim j.spec.ttl_seconds_after_finished [
  | pos ttl ↦
      if leb ttl 0
      then none
      else (if j.status.completion_time == 0
          then some ttl
          else some (ttl + j.status.completion_time - now))
  | negsuc n ↦ none
]

unfoldable pub get_ttl_seconds_remaining : Manager → String → String → ℕ → Option ℕ
unfolding get
get_ttl_seconds_remaining m namespace job_name now =
    ask none (ttl_left now) (get m namespace job_name)

abbrev pub clamp_count : ℤ → ℕ
clamp_count (pos n) = if ltb 6 n then 6 else n
clamp_count (negsuc n) = 0

-- The entry of an array of seven.
unfoldable pub get_backoff_delay : ℤ → Option ℕ
get_backoff_delay failure_count =
    get_elem? (1 ∷ 2 ∷ 4 ∷ 8 ∷ 16 ∷ 32 ∷ 32 ∷ []) (clamp_count failure_count)
