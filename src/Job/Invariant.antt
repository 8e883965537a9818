-- ===== src/Job/Invariant.antt =====
-- What every call on the table of jobs of sirah/internal/job/job.c keeps.
use sirah_c.Prelude.{
  ◌≤◌, ◌≡◌, inl, inr, refl, sym, ap, subst, ◌∙◌, Bool, true, false, some, List, [], ◌∷◌, String,
  All, arith, length, Bool-cases,
}
use sirah_c.Table.{string_key, pair_key}
use sirah_c.Table.Laws.{IsUnique}
use sirah_c.Table.Refinement.{Command, table_step, IsKeyed, step-Simulates}
use sirah_c.Table.Entries.{AllOf, insert-All, drop-All, change-All}
use sirah_c.Job.{
  Job, Manager, job_key, put_jobs, if_valid, validate_spec, new_job, renewed, updated, create,
  update, delete,
}
use sirah_c.Job.Pods.{
  create_pod, delete_pod, mark_pod_succeeded, mark_pod_failed, update_status, record_pod_failure,
  reset_failure_count, suspend, resume, on_job, on_status, set_suspend, with_failure, with_success,
  with_pod, without_pod, with_counts, one_failure, no_failures,
}
use sirah_c.Job.Calls.{
  Call, creates, updates, deletes, creates_pod, deletes_pod, succeeds, fails, sets_status,
  records_failure, resets_failures, suspends, resumes, call, run,
}
use sirah_c.Job.Validity.{
  IsValid, Keeps, on_status-Keeps, set_suspend-Keeps, new_job-IsValid, renewed-IsValid, track-few,
  untrack-few,
}

-- Different jobs have different names, there are at most 1000, and each is valid.
pub record HasValidJobs (m : Manager) : Type 0 where
  pub unique : IsUnique job_key m.jobs
  pub few : length m.jobs ≤ 1000
  pub valid : All IsValid m.jobs

put_jobs-HasValidJobs :
    (m : Manager) (c : Command (String × String) Job)
    → IsKeyed job_key c
    → AllOf IsValid (table_step job_key 1000 m.jobs c)
    → HasValidJobs m
    → HasValidJobs (put_jobs m (table_step job_key 1000 m.jobs c)).0
put_jobs-HasValidJobs m c keyed all s = elim (step-Simulates job_key 1000 m.jobs c s.unique keyed) [
  | inl (refused, refused') ↦ rw refused s
  | inr (es, done, done', unique, bounded) ↦
      let valid : All IsValid es = subst (AllOf IsValid) done all in
      rw done (record { unique = unique; few = bounded s.few; valid = valid })
]

if_valid-HasValidJobs :
    (b : Bool) (m : Manager) (c : Command (String × String) Job)
    → IsKeyed job_key c
    → (b ≡ true → AllOf IsValid (table_step job_key 1000 m.jobs c))
    → HasValidJobs m
    → HasValidJobs (if_valid b m (table_step job_key 1000 m.jobs c)).0
if_valid-HasValidJobs b m c keyed all s =
    elim (step-Simulates job_key 1000 m.jobs c s.unique keyed) [
      | inl (refused, refused') ↦ rw refused s
      | inr (es, done, done', unique, bounded) ↦ elim (Bool-cases b) [
        | inl valid ↦
            let all_valid : All IsValid es = subst (AllOf IsValid) done (all valid) in
            rw (done, valid) (record { unique = unique; few = bounded s.few; valid = all_valid })
        | inr not_valid ↦ rw (done, not_valid) s
      ]
    ]

on_job-HasValidJobs :
    (m : Manager) (namespace name : String) (f : Job → Job)
    → Keeps f
    → HasValidJobs m
    → HasValidJobs (on_job m namespace name f).0
unfolding on_job
on_job-HasValidJobs m namespace name f k s =
    put_jobs-HasValidJobs m (Command.changes (namespace, name) (λ j. some (f j)))
      (λ e e' at h.
        let made : f e ≡ e' = ground arith in subst (λ x. job_key x ≡ job_key e) made (k.key e))
      (change-All job_key IsValid (namespace, name) (λ j. some (f j)) m.jobs
        (λ e e' valid h. let made : f e ≡ e' = ground arith in subst IsValid made (k.valid e valid))
        s.valid)
      s

call-HasValidJobs : (m : Manager) (c : Call) → HasValidJobs m → HasValidJobs (call m c).0
unfolding call create update delete create_pod delete_pod mark_pod_succeeded mark_pod_failed
    update_status record_pod_failure reset_failure_count suspend resume
call-HasValidJobs m (creates namespace name sp now) s =
    if_valid-HasValidJobs (validate_spec sp) m (Command.creates (new_job namespace name sp now)) tt
      (λ valid.
        insert-All job_key IsValid 1000 (new_job namespace name sp now) m.jobs s.valid
          (new_job-IsValid namespace name sp now valid))
      s
call-HasValidJobs m (updates namespace name sp now) s =
    if_valid-HasValidJobs (validate_spec sp) m
      (Command.changes (namespace, name) (updated namespace name sp now))
      (λ e e' at h.
        let made : renewed namespace name sp now e ≡ e' = ground arith in
        ap job_key (sym made) ∙ sym at)
      (λ valid.
        change-All job_key IsValid (namespace, name) (updated namespace name sp now) m.jobs
          (λ e e' v h.
            let made : renewed namespace name sp now e ≡ e' = ground arith in
            subst IsValid made (renewed-IsValid namespace name sp now e valid v))
          s.valid)
      s
call-HasValidJobs m (deletes namespace name) s =
    put_jobs-HasValidJobs m (Command.deletes (namespace, name)) tt
      (drop-All job_key IsValid (namespace, name) m.jobs s.valid) s
call-HasValidJobs m (creates_pod namespace name pod) s =
    on_job-HasValidJobs m namespace name (on_status (with_pod pod))
      (on_status-Keeps (with_pod pod) (λ st. track-few pod st.pod_names) (λ st. refl)) s
call-HasValidJobs m (deletes_pod namespace name pod) s =
    on_job-HasValidJobs m namespace name (on_status (without_pod pod))
      (on_status-Keeps (without_pod pod) (λ st h. omega (arith, untrack-few pod st.pod_names))
        (λ st. refl))
      s
call-HasValidJobs m (succeeds namespace name) s =
    on_job-HasValidJobs m namespace name (on_status with_success)
      (on_status-Keeps with_success (λ st h. h) (λ st. refl)) s
call-HasValidJobs m (fails namespace name true now) s =
    on_job-HasValidJobs m namespace name (on_status (with_failure true now))
      (on_status-Keeps (with_failure true now) (λ st h. h) (λ st. refl)) s
call-HasValidJobs m (fails namespace name false now) s =
    on_job-HasValidJobs m namespace name (on_status (with_failure false now))
      (on_status-Keeps (with_failure false now) (λ st h. h) (λ st. refl)) s
call-HasValidJobs m (sets_status namespace name active succeeded failed) s =
    on_job-HasValidJobs m namespace name (on_status (with_counts active succeeded failed))
      (on_status-Keeps (with_counts active succeeded failed) (λ st h. h) (λ st. refl)) s
call-HasValidJobs m (records_failure namespace name now) s =
    on_job-HasValidJobs m namespace name (on_status (one_failure now))
      (on_status-Keeps (one_failure now) (λ st h. h) (λ st. refl)) s
call-HasValidJobs m (resets_failures namespace name) s =
    on_job-HasValidJobs m namespace name (on_status no_failures)
      (on_status-Keeps no_failures (λ st h. h) (λ st. refl)) s
call-HasValidJobs m (suspends namespace name) s =
    on_job-HasValidJobs m namespace name (set_suspend true) (set_suspend-Keeps true) s
call-HasValidJobs m (resumes namespace name) s =
    on_job-HasValidJobs m namespace name (set_suspend false) (set_suspend-Keeps false) s

run_from-HasValidJobs : (m : Manager) (cs : List Call) → HasValidJobs m → HasValidJobs (run m cs)
unfolding run
run_from-HasValidJobs m [] s = s
run_from-HasValidJobs m (c ∷ cs) s = run_from-HasValidJobs (call m c).0 cs (call-HasValidJobs m c s)

-- After any calls on an empty table, no two jobs of a namespace have the same name, there are at most
-- 1000 jobs, and each asks for 1 to 10000 completions by 1 to 1000 pods at a time, has a backoff limit
-- from 0 to 100 and a restart policy from 0 to 2, tracks at most 1000 pods and has no time of
-- completion.
pub run-HasValidJobs : (m : Manager) (cs : List Call) → m.jobs ≡ [] → HasValidJobs (run m cs)
run-HasValidJobs m cs empty =
    run_from-HasValidJobs m cs
      (record { unique = rw empty tt; few = ground arith; valid = rw empty tt })
