-- ===== src/HealthProbe/Gates.antt =====
-- What the probes of a pod say together: `pod_probe_is_startup_complete`, `pod_probe_is_ready`,
-- `pod_probe_is_alive` and `pod_probe_get_stats` of internal/probes/health_probe.c.
use sirah_c.Prelude.{
  ◌+◌, ◌≡◌, refl, ◌↔◌, Bool, true, false, List, [], ◌∷◌, ◌++◌, arith, length, All,
}
use sirah_c.HealthProbe.{
  ProbeType, startup, readiness, liveness, ProbeConfig, ProbeManager, Probe, fresh_probe, add_probe,
  same_type, survey, is_startup_complete, is_ready, is_alive, tally, get_stats,
}

-- Every probe of the type has passed.
abbrev pub Passes : ProbeType → List Probe → Type 0
Passes t = All (λ p. same_type p.config.type t ≡ true → p.state.passed ≡ true)

survey-Passes : (t : ProbeType) (ps : List Probe) → ((survey t ps).1 ≡ true) ↔ Passes t ps
unfolding survey
survey-Passes t [] = (λ e. tt, λ h. refl)
survey-Passes t (p ∷ ps) =
    let (to, from) = survey-Passes t ps in
    (λ e. (λ same. ground arith, to (ground arith)), λ h. ground (arith, from h.1, h.0))

survey_none : (t : ProbeType) (ps : List Probe) → (survey t ps).0 ≡ false → (survey t ps).1 ≡ true
unfolding survey
survey_none t [] e = refl
survey_none t (p ∷ ps) e = ground (arith, survey_none t ps)

-- Start-up is complete, a pod is ready, and a pod is alive exactly when its start-up probes, its
-- start-up and readiness probes, and its liveness probes have all passed.
pub gates_lem :
    (m : ProbeManager)
    → ((is_startup_complete m ≡ true) ↔ Passes startup m.probes)
      × ((is_ready m ≡ true) ↔ (Passes startup m.probes × Passes readiness m.probes))
      × ((is_alive m ≡ true) ↔ Passes liveness m.probes)
unfolding is_startup_complete is_ready is_alive
gates_lem m =
    let (to_s, from_s) = survey-Passes startup m.probes in
    let (to_r, from_r) = survey-Passes readiness m.probes in
    let (to_l, from_l) = survey-Passes liveness m.probes in
    let none_s = survey_none startup m.probes in
    let none_r = survey_none readiness m.probes in
    let none_l = survey_none liveness m.probes in
    (
      (λ e. to_s (ground arith), λ h. ground (arith, from_s h)),
      (
        λ e. (to_s (ground arith), to_r (ground arith)),
        λ h. ground (arith, from_s h.0, from_r h.1),
      ),
      (λ e. to_l (ground arith), λ h. ground (arith, from_l h)),
    )

tally-length : (ps : List Probe) → (tally ps).0 + (tally ps).1 ≡ length ps
unfolding tally
tally-length [] = refl
tally-length (p ∷ ps) = ground (arith, tally-length ps)

one_of :
    (t : ProbeType) {b : Bool}
    → (same_type t startup ≡ true → b ≡ true)
    → (same_type t readiness ≡ true → b ≡ true)
    → (same_type t liveness ≡ true → b ≡ true)
    → b ≡ true
one_of startup s r l = s refl
one_of readiness s r l = r refl
one_of liveness s r l = l refl

tally-Passes :
    (ps : List Probe)
    → ((tally ps).1 ≡ 0) ↔ (Passes startup ps × Passes readiness ps × Passes liveness ps)
unfolding tally
tally-Passes [] = (λ e. (tt, tt, tt), λ h. refl)
tally-Passes (p ∷ ps) =
    let (to, from) = tally-Passes ps in
    (
      λ e.
          let passed : p.state.passed ≡ true = ground arith in
          let (s, r, l) = to (ground arith) in
          ((λ same. passed, s), (λ same. passed, r), (λ same. passed, l)),
      λ h.
          let passed = one_of p.config.type h.0.0 h.1.0 h.2.0 in
          let rest = from (h.0.1, h.1.1, h.2.1) in ground arith,
    )

-- The probes that pass and those that fail are all of the probes; none fails exactly when start-up is
-- complete and the pod is ready and alive.
pub get_stats_lem :
    (m : ProbeManager)
    → let (total, passing, failing) = get_stats m in
      (passing + failing ≡ total)
      × ((failing ≡ 0)
          ↔ ((is_startup_complete m ≡ true) × (is_ready m ≡ true) × (is_alive m ≡ true)))
unfolding get_stats
get_stats_lem m =
    let (to, from) = tally-Passes m.probes in
    let ((to_s, from_s), (to_r, from_r), (to_l, from_l)) = gates_lem m in
    (
      tally-length m.probes,
      (
        λ e. let (s, r, l) = to e in (from_s s, from_r (s, r), from_l l),
        λ h. from (to_s h.0, (to_r h.1).1, to_l h.2),
      ),
    )

survey_fresh :
    (t : ProbeType) (m : ProbeManager) (c : ProbeConfig) (ps : List Probe)
    → same_type c.type t ≡ true
    → survey t (ps ++ fresh_probe m c ∷ []) ≡ (true, false)
unfolding survey fresh_probe
survey_fresh t m c [] same = ground arith
survey_fresh t m c (p ∷ ps) same = ground (arith, survey_fresh t m c ps same)

-- A probe that has just been added holds its gate shut, before it has reported anything: a pod with a
-- new start-up probe is neither through its start-up nor ready, one with a new readiness probe is not
-- ready, and one with a new liveness probe is not alive.
pub add_probe_shuts :
    (m : ProbeManager) (c : ProbeConfig)
    → let m' = (add_probe m c true).0 in
      (c.type ≡ startup → (is_startup_complete m' ≡ false) × (is_ready m' ≡ false))
      × (c.type ≡ readiness → is_ready m' ≡ false)
      × (c.type ≡ liveness → is_alive m' ≡ false)
unfolding add_probe is_startup_complete is_ready is_alive
add_probe_shuts m c = (
  λ e. let shut = survey_fresh startup m c m.probes (rw e refl) in (rw shut refl, rw shut refl),
  λ e. let shut = survey_fresh readiness m c m.probes (rw e refl) in ground arith,
  λ e. let shut = survey_fresh liveness m c m.probes (rw e refl) in rw shut refl,
)
