-- ===== src/Job.antt =====
-- sirah/internal/job/job.{h,c}: the table of jobs, and the pods that each job tracks. An argument is the
-- object that a pointer leads to (a null pointer is turned away before any state is read), and `now` is
-- what `time(NULL)` answers. Texts are taken to fit the arrays that they are copied into, and counts to
-- stay below 2^31; the fields of a specification have signs. `pod_name` is what `job_generate_pod_name`
-- writes. The conditions of a job, which nothing here sets, are left out.
pub mod Calls
pub mod Invariant
pub mod Pods
pub mod Progress
pub mod Retries
mod Tests
pub mod Validity
use Prim.Native.String.{len}
use sirah_c.Prelude.{
  ℕ, ◌+◌, ◌-◌, Bool, true, false, not, ◌&&◌, ◌||◌, Option, none, some, List, [], ◌∷◌, ◌++◌, String,
  str_eq, ltb, leb, ◌==◌, if◌then◌else◌, length, cons_to, filter, u32, ℤ, pos, negsuc, is_between,
}
use sirah_c.Table.{find, change, drop, insert, string_key, pair_key}

-- The return codes 0, -1 and -2.
pub data Status : Type 0 where
  ok error invalid : Status

pub data CompletionMode : Type 0 where
  non_indexed indexed : CompletionMode

pub record Spec : Type 0 where
  pub name : String
  pub namespace : String
  pub completions : ℤ
  pub parallelism : ℤ
  pub backoff_limit : ℤ
  pub ttl_seconds_after_finished : ℤ
  pub suspend : Bool
  pub completion_mode : CompletionMode
  pub pod_template_name : String
  pub container_image : String
  pub command : String
  pub container_port : ℤ
  pub restart_policy : ℤ
  pub created_at : ℕ
  pub updated_at : ℕ
  pub generation : ℕ

-- `pod_count` is the length of `pod_names`.
pub record JobStatus : Type 0 where
  pub active : ℕ
  pub succeeded : ℕ
  pub failed : ℕ
  pub terminating : ℕ
  pub start_time : ℕ
  pub completion_time : ℕ
  pub pod_names : List String
  pub failure_count : ℕ
  pub last_failure_time : ℕ

pub record Job : Type 0 where
  pub spec : Spec
  pub status : JobStatus

pub record Manager : Type 0 where
  pub initialized : Bool
  pub jobs : List Job

abbrev pub job_key : Job → String × String
job_key j = (j.spec.namespace, j.spec.name)

unfoldable pub init : Manager → Manager
init m = if m.initialized then m else record { initialized = true; jobs = [] }

unfoldable pub shutdown : Manager → Manager
shutdown m = if not m.initialized then m else record { initialized = false; jobs = [] }

unfoldable pub validate_spec : Spec → Bool
validate_spec s =
    if (len s.name == 0) || ltb 253 (len s.name)
    then false
    else (if not (is_between 1 10000 s.completions)
        then false
        else (if not (is_between 1 1000 s.parallelism)
            then false
            else (if not (is_between 0 100 s.backoff_limit)
                then false
                else is_between 0 2 s.restart_policy)))

unfoldable pub can_create : String → Spec → Bool
unfolding validate_spec
can_create namespace s =
    if (len namespace == 0) || ltb 253 (len namespace) then false else validate_spec s

abbrev pub new_status : ℕ → JobStatus
new_status now = record {
  active = 0;
  succeeded = 0;
  failed = 0;
  terminating = 0;
  start_time = now;
  completion_time = 0;
  pod_names = [];
  failure_count = 0;
  last_failure_time = 0;
}

abbrev pub new_job : String → String → Spec → ℕ → Job
new_job namespace name s now = record {
  spec = record s {
    namespace = namespace;
    name = name;
    created_at = now;
    updated_at = now;
    generation = 1;
  };
  status = new_status now;
}

-- The state with a new array, or the old one where the operation is refused.
abbrev pub put_jobs : Manager → Option (List Job) → Manager × Status
put_jobs m none = (m, error)
put_jobs m (some js) = (record m { jobs = js }, ok)

abbrev pub if_valid : Bool → Manager → Option (List Job) → Manager × Status
if_valid valid m none = (m, error)
if_valid true m (some js) = (record m { jobs = js }, ok)
if_valid false m (some js) = (m, invalid)

unfoldable pub create : Manager → String → String → Spec → ℕ → Manager × Status
unfolding insert validate_spec
create m namespace name s now =
    if_valid (validate_spec s) m (insert job_key 1000 (new_job namespace name s now) m.jobs)

unfoldable pub get : Manager → String → String → Option Job
unfolding find
get m namespace name = find job_key (namespace, name) m.jobs

-- The generation of the argument is raised, not that of the job.
abbrev pub renewed : String → String → Spec → ℕ → Job → Job
renewed namespace name s now j = record j {
  spec = record s {
    namespace = namespace;
    name = name;
    created_at = j.spec.created_at;
    updated_at = now;
    generation = u32 (s.generation + 1);
  };
}

abbrev pub updated : String → String → Spec → ℕ → Job → Option Job
updated namespace name s now j = some (renewed namespace name s now j)

unfoldable pub update : Manager → String → String → Spec → ℕ → Manager × Status
unfolding change validate_spec
update m namespace name s now =
    if_valid (validate_spec s) m
      (change job_key (namespace, name) (updated namespace name s now) m.jobs)

unfoldable pub delete : Manager → String → String → Manager × Status
unfolding drop
delete m namespace name = put_jobs m (drop job_key (namespace, name) m.jobs)

abbrev pub is_in : Option String → Job → Bool
is_in none j = true
is_in (some namespace) j = str_eq j.spec.namespace namespace

unfoldable pub list : Manager → Option String → List Job
list m namespace = filter (is_in namespace) m.jobs

unfoldable pub list_count : Manager → Option String → ℕ
list_count m namespace = length (filter (is_in namespace) m.jobs)
