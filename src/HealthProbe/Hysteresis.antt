-- ===== src/HealthProbe/Hysteresis.antt =====
-- The verdict of a probe (`pod_probe_update_result` of internal/probes/health_probe.c) against the
-- history of its results.
use native.Mathlib.Decide.{dec_le}
use sirah_c.Prelude.{
  ℕ, suc, ◌+◌, ◌≤◌, ◌<◌, ◌≡◌, refl, ◌∙◌, ◌↔◌, Bool, true, false, List, [], ◌∷◌, arith, length,
  if◌then◌else◌, leb, Bool-cases, inl, inr,
}
use sirah_c.HealthProbe.{
  ProbeResult, ProbeConfig, ProbeManager, Probe, ProbeState, is_success, fresh_probe, update_result,
  judge,
}

-- A result and the time of its report.
pub record Report : Type 0 where
  pub result : ProbeResult
  pub now : ℕ

-- The probe after a history of reports, the newest first.
unfoldable pub after : Probe → List Report → Probe
after p [] = p
after p (r ∷ rs) = (update_result (after p rs) r.result r.now).0

-- How many reports in a row, from the newest back, are successes (of `true`) or not (of `false`).
unfoldable pub streak : Bool → List Report → ℕ
streak true [] = 0
streak true (r ∷ rs) = let rest = suc (streak true rs) in if is_success r.result then rest else 0
streak false [] = 0
streak false (r ∷ rs) = let rest = suc (streak false rs) in if is_success r.result then 0 else rest

-- A history with a run of `s` successes, and no run of `f` failures since.
pub data IsHealthy (s f : ℕ) : List Report → Type 0 where
  reached : {rs : List Report} → s ≤ streak true rs → IsHealthy s f rs
  kept :
      {r : Report} {rs : List Report}
      → IsHealthy s f rs
      → streak false (r ∷ rs) < f
      → IsHealthy s f (r ∷ rs)

-- What a probe with these thresholds shows after a history.
record Shows (c : ProbeConfig) (p : Probe) (rs : List Report) : Type 0 where
  same_config : p.config ≡ c
  successes : p.state.consecutive_successes ≡ streak true rs
  failures : p.state.consecutive_failures ≡ streak false rs

judge_success :
    (c : ProbeConfig) (s : ProbeState) (r : ProbeResult)
    → is_success r ≡ true
    → s.consecutive_successes + 1 < 4294967296
    → ((judge c s r).0.consecutive_successes ≡ s.consecutive_successes + 1)
      × ((judge c s r).0.consecutive_failures ≡ 0)
      × ((judge c s r).0.passed
          ≡ (if leb c.success_threshold (s.consecutive_successes + 1) then true else s.passed))
unfolding judge
judge_success c s r good w = ground arith

judge_failure :
    (c : ProbeConfig) (s : ProbeState) (r : ProbeResult)
    → is_success r ≡ false
    → s.consecutive_failures + 1 < 4294967296
    → ((judge c s r).0.consecutive_successes ≡ 0)
      × ((judge c s r).0.consecutive_failures ≡ s.consecutive_failures + 1)
      × ((judge c s r).0.passed
          ≡ (if leb c.failure_threshold (s.consecutive_failures + 1) then false else s.passed))
unfolding judge
judge_failure c s r bad w = ground arith

fresh-Shows : (m : ProbeManager) (c : ProbeConfig) → Shows c (fresh_probe m c) []
unfolding fresh_probe streak
fresh-Shows m c = record { same_config = refl; successes = refl; failures = refl }

streak-le-length : (b : Bool) (rs : List Report) → streak b rs ≤ length rs
unfolding streak
streak-le-length true [] = omega arith
streak-le-length true (r ∷ rs) = ground (arith, streak-le-length true rs)
streak-le-length false [] = omega arith
streak-le-length false (r ∷ rs) = ground (arith, streak-le-length false rs)

streak_success :
    (r : Report) (rs : List Report)
    → is_success r.result ≡ true
    → (streak true (r ∷ rs) ≡ streak true rs + 1) × (streak false (r ∷ rs) ≡ 0)
unfolding streak
streak_success r rs good = rw good (omega arith, refl)

streak_failure :
    (r : Report) (rs : List Report)
    → is_success r.result ≡ false
    → (streak true (r ∷ rs) ≡ 0) × (streak false (r ∷ rs) ≡ streak false rs + 1)
unfolding streak
streak_failure r rs bad = rw bad (refl, omega arith)

update_result-Shows :
    (c : ProbeConfig) (p : Probe) (r : Report) (rs : List Report)
    → length rs + 1 < 4294967296
    → Shows c p rs
    → Shows c (update_result p r.result r.now).0 (r ∷ rs)
unfolding update_result
update_result-Shows c p r rs w h = elim (Bool-cases (is_success r.result)) [
  | inl good ↦
      let (s, f, _) =
        judge_success p.config p.state r.result good
          (omega (arith, h.successes, streak-le-length true rs)) in
      record {
        same_config = h.same_config;
        successes = omega (arith, s, h.successes, (streak_success r rs good).0);
        failures = omega (arith, f, (streak_success r rs good).1);
      }
  | inr bad ↦
      let (s, f, _) =
        judge_failure p.config p.state r.result bad
          (omega (arith, h.failures, streak-le-length false rs)) in
      record {
        same_config = h.same_config;
        successes = omega (arith, s, (streak_failure r rs bad).0);
        failures = omega (arith, f, h.failures, (streak_failure r rs bad).1);
      }
]

after-Shows :
    (m : ProbeManager) (c : ProbeConfig) (rs : List Report)
    → length rs < 4294967296
    → Shows c (after (fresh_probe m c) rs) rs
unfolding after
after-Shows m c [] w = fresh-Shows m c
after-Shows m c (r ∷ rs) w =
    update_result-Shows c (after (fresh_probe m c) rs) r rs (omega arith)
      (after-Shows m c rs (omega arith))

-- The verdict after one more report.
passed_after :
    (m : ProbeManager) (c : ProbeConfig) (r : Report) (rs : List Report)
    → length rs + 1 < 4294967296
    → (after (fresh_probe m c) (r ∷ rs)).state.passed ≡ (
        if is_success r.result
        then (if leb c.success_threshold (streak true (r ∷ rs))
            then true
            else (after (fresh_probe m c) rs).state.passed)
        else (if leb c.failure_threshold (streak false (r ∷ rs))
            then false
            else (after (fresh_probe m c) rs).state.passed))
unfolding after update_result
passed_after m c r rs w =
    let p = after (fresh_probe m c) rs in
    let h = after-Shows m c rs (omega arith) in
    elim (Bool-cases (is_success r.result)) [
      | inl good ↦
          (judge_success p.config p.state r.result good
            (omega (arith, h.successes, streak-le-length true rs))).2
          ∙ rw (good, h.same_config, h.successes, (streak_success r rs good).0) refl
      | inr bad ↦
          (judge_failure p.config p.state r.result bad
            (omega (arith, h.failures, streak-le-length false rs))).2
          ∙ rw (bad, h.same_config, h.failures, (streak_failure r rs bad).1) refl
    ]

passed-IsHealthy :
    (m : ProbeManager) (c : ProbeConfig) (rs : List Report)
    → 0 < c.failure_threshold
    → length rs < 4294967296
    → (after (fresh_probe m c) rs).state.passed ≡ true
    → IsHealthy c.success_threshold c.failure_threshold rs
passed-IsHealthy m c [] pos w e = absurd (unfold after fresh_probe in ground arith)
passed-IsHealthy m c (r ∷ rs) pos w e =
    let next = passed_after m c r rs (omega arith) in
    elim (Bool-cases (is_success r.result)) [
      | inl good ↦ elim (dec_le c.success_threshold (streak true (r ∷ rs))) [
        | yes long ↦ reached long
        | no short ↦
            kept (passed-IsHealthy m c rs pos (omega arith) (ground arith))
              (omega (arith, (streak_success r rs good).1))
      ]
      | inr bad ↦ kept (passed-IsHealthy m c rs pos (omega arith) (ground arith)) (ground arith)
    ]

IsHealthy-passed :
    (m : ProbeManager) (c : ProbeConfig) (rs : List Report)
    → 0 < c.success_threshold
    → length rs < 4294967296
    → IsHealthy c.success_threshold c.failure_threshold rs
    → (after (fresh_probe m c) rs).state.passed ≡ true
IsHealthy-passed m c [] pos w (reached long) = absurd (unfold streak in omega (arith, long))
IsHealthy-passed m c (r ∷ rs) pos w (reached long) =
    let next = passed_after m c r rs (omega arith) in
    elim (Bool-cases (is_success r.result)) [
      | inl good ↦ ground arith
      | inr bad ↦ absurd (omega (arith, (streak_failure r rs bad).0))
    ]
IsHealthy-passed m c (r ∷ rs) pos w (kept h short) =
    let next = passed_after m c r rs (omega arith) in
    let before = IsHealthy-passed m c rs pos (omega arith) h in ground arith

-- A fresh probe with positive thresholds has passed, after any history of fewer than 2^32 reports,
-- exactly when the history holds a run of `success_threshold` successes with no run of
-- `failure_threshold` failures since.
pub passed_IsHealthy_iff :
    (m : ProbeManager) (c : ProbeConfig) (rs : List Report)
    → 0 < c.success_threshold
    → 0 < c.failure_threshold
    → length rs < 4294967296
    → ((after (fresh_probe m c) rs).state.passed ≡ true)
      ↔ IsHealthy c.success_threshold c.failure_threshold rs
passed_IsHealthy_iff m c rs pos pos' w =
    (passed-IsHealthy m c rs pos' w, IsHealthy-passed m c rs pos w)
