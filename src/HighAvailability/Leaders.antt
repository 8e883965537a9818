-- ===== src/HighAvailability/Leaders.antt =====
-- How many leaders the election of internal/ha/ha_manager.c makes.
use sirah_c.Prelude.{ℕ, ◌≡◌, Bool, true, List, [], ◌∷◌}
use sirah_c.HighAvailability.{begins, Manager, Write, lease_write, thread_step}

-- A running manager at the head of its loop.
pub record IsDue (m : Manager) : Type 0 where
  pub begun : m.phase ≡ begins
  pub running : m.election_running ≡ true

-- From the head of the loop to the status after the answer.
unfoldable pub round : Bool → Manager → Manager
round answer m = thread_step answer (thread_step answer (thread_step answer m))

module _ {ℓ} {S : Type ℓ} (commit : S → Write → S × Bool) where
  -- The managers take a round each, on a store that is left as the write of the one before left it.
  unfoldable pub rounds : S → List (Manager × ℕ) → List Manager
  unfolding round lease_write
  rounds s [] = []
  rounds s (m ∷ ms) =
      let answer = commit s (lease_write m.0 m.1) in round answer.1 m.0 ∷ rounds answer.0 ms
