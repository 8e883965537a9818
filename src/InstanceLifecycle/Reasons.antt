-- ===== src/InstanceLifecycle/Reasons.antt =====
-- What `instance_metadata_record_failure` of internal/monitor/instance_lifecycle.c does with the reasons
-- of failures.
use sirah_c.Prelude.{ℕ, ◌≡◌, refl, Option, none, some, String}
use sirah_c.InstanceLifecycle.{
  ExitCode, text, dangling, failed, Instance, with_failure, replace_reason, record_failure,
}

-- A failure with no reason that follows one with a reason is recorded, and leaves a pointer to the text
-- that it freed: the next failure, with a reason or none, frees that text again.
pub no_reason_frees_twice :
    (i : Instance) (code code' : ExitCode) (old : String) (reason : Option String) (now now' : ℕ)
    → i.last_failure_reason ≡ text old
    → (i' : Instance) × (record_failure i code none now ≡ some i')
      × (i'.state ≡ failed)
      × (record_failure i' code' reason now' ≡ none)
unfolding record_failure replace_reason
no_reason_frees_twice i code code' old reason now now' had =
    (with_failure i code now dangling, rw had refl, refl, refl)
