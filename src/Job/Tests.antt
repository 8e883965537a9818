-- ===== src/Job/Tests.antt =====
-- The table of sirah/internal/job/job.c with one job.
use sirah_c.Prelude.{◌≡◌, ◌↔◌, ◌<◌, ◌+◌, refl, true, false, List, [], ◌∷◌, pos, negsuc, arith}
use sirah_c.Job.{Spec, Job, Manager, invalid, non_indexed, new_job, create}
use sirah_c.Job.Pods.{complete, wants_pods, over_limit, on_status, with_pod}
use sirah_c.Job.Calls.{Call, creates, creates_pod, succeeds, fails, deletes_pod, run}
use sirah_c.Job.Invariant.{HasValidJobs, run-HasValidJobs}
use sirah_c.Job.Progress.{IsReady, serial_turns, serial_turns-complete_iff, tracked_pods_stall}
use sirah_c.Job.Retries.{success, failure, after, retries, over_limit-after_iff}

abbrev backup : Spec
backup = record {
  name = "backup";
  namespace = "prod";
  completions = pos 3;
  parallelism = pos 1;
  backoff_limit = pos 2;
  ttl_seconds_after_finished = pos 60;
  suspend = false;
  completion_mode = non_indexed;
  pod_template_name = "";
  container_image = "backup:1";
  command = "run";
  container_port = pos 0;
  restart_policy = pos 1;
  created_at = 0;
  updated_at = 0;
  generation = 0;
}

abbrev empty : Manager
empty = record { initialized = true; jobs = [] }

negative_refused :
    create empty "prod" "backup" (record backup { completions = negsuc 0 }) 5 ≡ (empty, invalid)
unfolding create
negative_refused = refl

abbrev calls : List Call
calls =
    creates "prod" "backup" backup 5
    ∷ creates_pod "prod" "backup" "backup-0-5"
    ∷ succeeds "prod" "backup"
    ∷ fails "prod" "backup" true 7
    ∷ deletes_pod "prod" "backup" "backup-0-5"
    ∷ []

run-HasValidJobs_example : HasValidJobs (run empty calls)
run-HasValidJobs_example = run-HasValidJobs empty calls refl

abbrev job : Job
job = new_job "prod" "backup" backup 5

job-IsReady : IsReady 3 1 2 job
job-IsReady = record {
  completions = refl;
  parallelism = refl;
  backoff_limit = refl;
  unsuspended = refl;
  untracked = refl;
  unfailed = refl;
}

serial_turns-complete_iff_example :
    (complete (serial_turns 3 "backup-0-5" job) ≡ true) ↔ (job.status.succeeded + 3 ≡ 3)
serial_turns-complete_iff_example =
    serial_turns-complete_iff 3 3 1 2 "backup-0-5" job job-IsReady (omega arith) (omega arith)

tracked_pods_stall_example :
    wants_pods (after (on_status (with_pod "backup-0-5") job) (success ∷ [])) ≡ false
tracked_pods_stall_example =
    tracked_pods_stall (on_status (with_pod "backup-0-5") job) 1 (success ∷ []) refl (omega arith)

over_limit-after_iff_example :
    (over_limit (after job (failure true 6 ∷ failure false 7 ∷ failure true 8 ∷ [])) ≡ true)
    ↔ (2 < retries 0 (failure true 6 ∷ failure false 7 ∷ failure true 8 ∷ []))
over_limit-after_iff_example =
    over_limit-after_iff job 2 (failure true 6 ∷ failure false 7 ∷ failure true 8 ∷ []) refl refl
