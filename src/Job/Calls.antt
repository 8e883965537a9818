-- ===== src/Job/Calls.antt =====
-- Calls of any kind that change the table of jobs of sirah/internal/job/job.c.
use sirah_c.Prelude.{ℕ, Bool, List, [], ◌∷◌, String}
use sirah_c.Job.{Spec, Manager, Status, create, update, delete}
use sirah_c.Job.Pods.{
  create_pod, delete_pod, mark_pod_succeeded, mark_pod_failed, update_status, record_pod_failure,
  reset_failure_count, suspend, resume,
}

pub data Call : Type 0 where
  creates : String → String → Spec → ℕ → Call
  updates : String → String → Spec → ℕ → Call
  deletes : String → String → Call
  creates_pod : String → String → String → Call
  deletes_pod : String → String → String → Call
  succeeds : String → String → Call
  fails : String → String → Bool → ℕ → Call
  sets_status : String → String → ℕ → ℕ → ℕ → Call
  records_failure : String → String → ℕ → Call
  resets_failures : String → String → Call
  suspends : String → String → Call
  resumes : String → String → Call

unfoldable pub call : Manager → Call → Manager × Status
call m (creates namespace name s now) = create m namespace name s now
call m (updates namespace name s now) = update m namespace name s now
call m (deletes namespace name) = delete m namespace name
call m (creates_pod namespace name pod) = create_pod m namespace name pod
call m (deletes_pod namespace name pod) = delete_pod m namespace name pod
call m (succeeds namespace name) = mark_pod_succeeded m namespace name
call m (fails namespace name retry now) = mark_pod_failed m namespace name retry now
call m (sets_status namespace name active succeeded failed) =
    update_status m namespace name active succeeded failed
call m (records_failure namespace name now) = record_pod_failure m namespace name now
call m (resets_failures namespace name) = reset_failure_count m namespace name
call m (suspends namespace name) = suspend m namespace name
call m (resumes namespace name) = resume m namespace name

unfoldable pub run : Manager → List Call → Manager
run m [] = m
run m (c ∷ cs) = run (call m c).0 cs
