-- ===== src/InstanceLifecycle/Restarts.antt =====
-- Restarts in internal/monitor/instance_lifecycle.c: the delay, and what the monitor thread does to one
-- instance, round after round.
use native.Mathlib.Nat.{pow-zero}
use sirah_c.Prelude.{
  ℕ, zero, suc, ◌+◌, ◌*◌, ◌^◌, ◌≤◌, ◌<◌, mul-two-pow, le-mul-pow, All, ◌≡◌, refl, sym, subst, ◌∙◌,
  Bool, true, false, List, [], ◌∷◌, min, ltb, leb, u32, length, arith, if◌then◌else◌, Bool-cases,
  inl, inr,
}
use sirah_c.InstanceLifecycle.{
  restarting, failed, Instance, set_state, record_restart, should_restart, double_delay,
  get_restart_delay,
}
use sirah_c.InstanceLifecycle.States.{
  set_state-state, set_state-process_id, set_state-restart_count,
}
use sirah_c.InstanceLifecycle.Manager.{after_death, check_instance}

double_delay_lem :
    (rounds delay : ℕ)
    → 0 < delay
    → delay < 600
    → min (double_delay rounds delay) 300 ≡ min (delay * 2 ^ rounds) 300
unfolding double_delay
double_delay_lem zero delay pos small = omega (arith, pow-zero 2)
double_delay_lem (suc rounds) delay pos small =
    let exact : u32 (delay * 2) ≡ delay * 2 = omega arith in
    rw (exact, mul-two-pow delay rounds)
      (ground (arith, le-mul-pow (delay * 2) rounds, double_delay_lem rounds (delay * 2)))

-- The delay before a restart is a second, doubled once for each restart and stopped at 300 seconds.
pub get_restart_delay_lem : (i : Instance) → get_restart_delay i ≡ min (2 ^ i.restart_count) 300
unfolding get_restart_delay
get_restart_delay_lem i =
    ground (arith, double_delay_lem i.restart_count 1 (omega arith) (omega arith))

-- A round of the monitor: what `kill` and `time` answer.
pub record MonitorRound : Type 0 where
  pub exists : ℕ → Bool
  pub now : ℕ

abbrev pub watch : Bool → Instance → List MonitorRound → Instance
watch drain_mode i [] = i
watch drain_mode i (r ∷ rs) = watch drain_mode (check_instance drain_mode r.exists r.now i) rs

after_death_lem :
    (dead : Instance) (now pid count : ℕ)
    → dead.state ≡ failed
    → dead.process_id ≡ pid
    → dead.restart_count ≡ count
    → count ≤ 5
    → ((after_death false dead now).process_id ≡ pid)
      × ((after_death false dead now).restart_count ≡ min 5 (count + 1))
      × ((after_death false dead now).state ≡ (if leb (count + 1) 5 then restarting else failed))
unfolding should_restart record_restart
after_death_lem dead now pid count h same counted few = ground arith

dead_step :
    (r : MonitorRound) (i : Instance)
    → 0 < i.process_id
    → r.exists i.process_id ≡ false
    → i.restart_count ≤ 5
    → let i' = check_instance false r.exists r.now i in
      (i'.process_id ≡ i.process_id)
      × (i'.restart_count ≡ min 5 (i.restart_count + 1))
      × (i'.state ≡ (if leb (i.restart_count + 1) 5 then restarting else failed))
unfolding check_instance
dead_step r i process gone few =
    let has_process : ltb 0 i.process_id ≡ true = ground arith in
    rw (has_process, gone)
      (after_death_lem (set_state i failed r.now) r.now i.process_id i.restart_count
        (set_state-state i failed r.now) (set_state-process_id i failed r.now)
        (set_state-restart_count i failed r.now) few)

-- Outside drain mode, and whatever its state was, an instance with at most 5 restarts whose process is
-- gone in every round is started again once a round until it has 5 restarts, and then fails. (Even one
-- that was stopped on purpose is.)
pub dead_rounds :
    (i : Instance) (r : MonitorRound) (rs : List MonitorRound)
    → 0 < i.process_id
    → i.restart_count ≤ 5
    → All (λ (r : MonitorRound). r.exists i.process_id ≡ false) (r ∷ rs)
    → let i' = watch false i (r ∷ rs) in
      let starts : ℕ = i.restart_count + length (r ∷ rs) in
      (i'.restart_count ≡ min 5 starts) × (i'.state ≡ (if leb starts 5 then restarting else failed))
dead_rounds i r [] process few gone =
    let (_, count, state) = dead_step r i process gone.0 few in (count, state)
dead_rounds i r (q ∷ rs) process few gone =
    let i₁ = check_instance false r.exists r.now i in
    let (same, counted, _) = dead_step r i process gone.0 few in
    let (count, state) =
      dead_rounds i₁ q rs (omega arith) (omega arith)
        (subst (λ n. All (λ (r : MonitorRound). r.exists n ≡ false) (q ∷ rs)) (sym same) gone.1) in
    (omega arith, state ∙ (rw counted (ground arith)))

after_death_bounded :
    (drain_mode : Bool) (dead : Instance) (now count : ℕ)
    → dead.restart_count ≡ count
    → count ≤ 5
    → let next : ℕ = (after_death drain_mode dead now).restart_count in
      (count ≤ next) × (next ≤ 5) × (drain_mode ≡ true → next ≡ count)
unfolding should_restart record_restart
after_death_bounded true dead now count counted few = ground arith
after_death_bounded false dead now count counted few = ground arith

check_bounded :
    (drain_mode : Bool) (r : MonitorRound) (i : Instance)
    → i.restart_count ≤ 5
    → let next : ℕ = (check_instance drain_mode r.exists r.now i).restart_count in
      (i.restart_count ≤ next) × (next ≤ 5) × (drain_mode ≡ true → next ≡ i.restart_count)
unfolding check_instance
check_bounded drain_mode r i few = elim (Bool-cases (ltb 0 i.process_id)) [
  | inr none ↦ rw none (omega arith, few, λ d. refl)
  | inl process ↦ elim (Bool-cases (r.exists i.process_id)) [
    | inl exists ↦ rw (process, exists) (omega arith, few, λ d. refl)
    | inr gone ↦
        rw (process, gone)
          (after_death_bounded drain_mode (set_state i failed r.now) r.now i.restart_count
            (set_state-restart_count i failed r.now) few)
  ]
]

-- From at most 5 restarts, however many rounds the monitor goes through and whatever processes exist in
-- each, it never lowers the number of restarts, never takes it above 5, and leaves it alone in drain
-- mode.
pub watch_bounded :
    (drain_mode : Bool) (i : Instance) (rs : List MonitorRound)
    → i.restart_count ≤ 5
    → let i' = watch drain_mode i rs in
      (i.restart_count ≤ i'.restart_count)
      × (i'.restart_count ≤ 5)
      × (drain_mode ≡ true → i'.restart_count ≡ i.restart_count)
watch_bounded drain_mode i [] few = (omega arith, few, λ d. refl)
watch_bounded drain_mode i (r ∷ rs) few =
    let (up, bound, same) = check_bounded drain_mode r i few in
    let (up', bound', same') =
      watch_bounded drain_mode (check_instance drain_mode r.exists r.now i) rs bound in
    (omega arith, bound', λ d. same' d ∙ same d)
