-- ===== src/GracefulShutdown/Drain.antt =====
-- How the wait of internal/shutdown/graceful_shutdown.c ends.
use sirah_c.Prelude.{
  ℕ, zero, suc, ◌+◌, ◌≤◌, ◌≡◌, ◌≢◌, ◌⊎◌, refl, subst, inl, inr, Bool, true, false, Option, some,
  leb, ◌==◌, arith, Bool-cases,
}
use sirah_c.GracefulShutdown.{Manager}
use sirah_c.GracefulShutdown.Calls.{Round, run, wait_from, wait}

-- An answer of the wait: true where no request is active, and false where one is or a round failed.
abbrev pub IsAnswer : (ℕ → Round) → Manager → Bool → Type 0
IsAnswer rounds m true = m.stats.active_requests ≡ 0
IsAnswer rounds m false = (m.stats.active_requests ≢ 0) ⊎ ((i : ℕ) × ((rounds i).fails ≡ true))

abbrev Ends : (ℕ → Round) → Option (Manager × Bool) → Type 0
Ends rounds o = (m : Manager) × (b : Bool) × (o ≡ some (m, b)) × IsAnswer rounds m b

-- One round of the loop ends it, or the rounds after it do.
round-Ends :
    (grace force : ℕ) (rounds : ℕ → Round) (n i : ℕ) (m : Manager)
    → (leb grace (rounds i).now ≡ false
        → Ends rounds (wait_from grace force rounds n (i + 1) (run m (rounds i).calls).0))
    → Ends rounds (wait_from grace force rounds (suc n) i m)
unfolding wait_from
round-Ends grace force rounds n i m later = elim (Bool-cases (m.stats.active_requests == 0)) [
  | inl idle ↦ (m, true, rw idle refl, ground arith)
  | inr busy ↦ elim (Bool-cases (leb force (rounds i).now)) [
    | inl forced ↦ (m, false, rw (busy, forced) refl, inl (λ e. ground arith))
    | inr a ↦ elim (Bool-cases (leb grace (rounds i).now)) [
      | inl over ↦ (m, false, rw (busy, a, over) refl, inl (λ e. ground arith))
      | inr b ↦ elim (Bool-cases (rounds i).fails) [
        | inl failed ↦
            ((run m (rounds i).calls).0, false, rw (busy, a, b, failed) refl, inr (i, failed))
        | inr fine ↦
            let (m', answer, ended, is) = later b in (m', answer, rw (busy, a, b, fine) ended, is)
      ]
    ]
  ]
]

wait_from-Ends :
    (grace force : ℕ) (rounds : ℕ → Round) (k i : ℕ) (m : Manager)
    → grace ≤ (rounds (k + i)).now
    → Ends rounds (wait_from grace force rounds (suc k) i m)
wait_from-Ends grace force rounds zero i m late =
    round-Ends grace force rounds 0 i m (λ early. absurd (ground arith))
wait_from-Ends grace force rounds (suc k) i m late =
    round-Ends grace force rounds (suc k) i m (λ early.
      wait_from-Ends grace force rounds k (i + 1) (run m (rounds i).calls).0
        (subst (λ j. grace ≤ (rounds j).now) (omega arith) late))

-- Whatever is called while it sleeps, the wait answers within k + 1 rounds where the time that round k
-- reads is not before the end of the grace period. It answers true only where no request is active, and
-- false only where one is or the sleep of a round failed.
pub wait_ends :
    (m : Manager) (start : ℕ) (rounds : ℕ → Round) (k : ℕ)
    → start + m.config.grace_period_seconds ≤ (rounds k).now
    → (m' : Manager) × (b : Bool) × (wait m start rounds (suc k) ≡ some (m', b))
      × IsAnswer rounds m' b
unfolding wait
wait_ends m start rounds k late =
    wait_from-Ends (start + m.config.grace_period_seconds) (start + m.config.force_timeout_seconds)
      rounds k 0 m
      (subst (λ j. start + m.config.grace_period_seconds ≤ (rounds j).now) (omega arith) late)
