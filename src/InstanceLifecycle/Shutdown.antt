-- ===== src/InstanceLifecycle/Shutdown.antt =====
-- How an instance is shut down (`instance_shutdown_graceful` and `instance_shutdown_force` of
-- internal/monitor/instance_lifecycle.c).
use native.Mathlib.Decide.{dec_lt}
use mathlib.Core.List.{Memᴰ}
use sirah_c.Prelude.{
  ℕ, ◌+◌, ◌-◌, ◌≤◌, ◌<◌, ◌≡◌, refl, ◌⊎◌, Bool, true, false, Option, none, some, List, [], ◌∷◌, ltb,
  ◌==◌, if◌then◌else◌, length, arith, Bool-cases, inl, inr,
}
use sirah_c.InstanceLifecycle.States.{set_state-state}
use sirah_c.InstanceLifecycle.{stopping, stopped, Instance, set_state}

pub data Signal : Type 0 where
  term kill : Signal

-- A round of the waiting loop: what `time(NULL)` answers, and whether the process still exists
-- then.
pub record Round : Type 0 where
  pub now : ℕ
  pub exists : Bool

-- The loop over the rounds that come, by a clock that never goes back. The answer is the time when
-- the loop ends, and whether the process had gone; `none` where the rounds end before the loop
-- does.
unfoldable pub wait : ℕ → ℕ → List Round → Option (ℕ × Bool)
wait start grace [] = none
wait start grace (r ∷ rs) =
    let rest = wait start grace rs in
    if ltb (r.now - start) grace
    then (if r.exists then rest else some (r.now, true))
    else some (r.now, false)

abbrev pub finish : Instance → ℕ → Option (ℕ × Bool) → Option (Instance × List Signal × Bool)
finish i stopped_at none = none
finish i stopped_at (some (now, true)) = some (set_state i stopped stopped_at, term ∷ [], true)
finish i stopped_at (some (now, false)) =
    some (set_state i stopped stopped_at, term ∷ kill ∷ [], true)

-- `now`, `start` and `stopped_at` are the answers of `time(NULL)` outside the loop. The result
-- holds the signals that the process is sent, and what the code answers.
unfoldable pub shutdown_graceful :
    Instance → ℕ → ℕ → ℕ → ℕ → List Round → Option (Instance × List Signal × Bool)
unfolding wait set_state
shutdown_graceful i grace now start stopped_at rounds =
    if i.process_id == 0
    then some (i, [], false)
    else finish (set_state i stopping now) stopped_at (wait start grace rounds)

unfoldable pub shutdown_force : Instance → ℕ → ℕ → Instance × List Signal × Bool
unfolding set_state
shutdown_force i now stopped_at =
    if i.process_id == 0
    then (i, [], false)
    else (set_state (set_state i stopping now) stopped stopped_at, kill ∷ [], true)

-- Each round of the loop sleeps for a second: the rounds come at `t` or later, at `t + 1` or later,
-- ...
abbrev pub Ticks : ℕ → List Round → Type 0
Ticks t [] = Unit
Ticks t (r ∷ rs) = (t ≤ r.now) × Ticks (t + 1) rs

-- The loop ends at a round that finds the process gone in time, or at one after the grace period.
abbrev pub EndsAt : ℕ → ℕ → List Round → Bool → Type 0
EndsAt start grace rs gone =
    (r : Round) × Memᴰ r rs
    × (((gone ≡ true) × (r.now - start < grace) × (r.exists ≡ false))
        ⊎ ((gone ≡ false) × (start + grace ≤ r.now)))

wait_ends :
    (start grace t : ℕ) (rs : List Round)
    → start ≤ t
    → t ≤ start + grace
    → Ticks t rs
    → start + grace < t + length rs
    → (now : ℕ) × (gone : Bool) × (wait start grace rs ≡ some (now, gone))
      × EndsAt start grace rs gone
unfolding wait
wait_ends start grace t [] begun within h long = absurd (omega (arith, long))
wait_ends start grace t (r ∷ rs) begun within h long = elim (dec_lt (r.now - start) grace) [
  | no late ↦ (r.now, false, ground arith, (r, Memᴰ.head refl, inr (refl, omega (arith, h.0))))
  | yes early ↦ elim (Bool-cases r.exists) [
    | inr gone ↦ (r.now, true, ground arith, (r, Memᴰ.head refl, inl (refl, early, gone)))
    | inl exists ↦
        let (now, gone, e, (s, listed, why)) =
          wait_ends start grace (t + 1) rs (omega arith) (omega (arith, h.0)) h.1
            (omega (arith, long)) in
        (now, gone, ground (arith, e), (s, Memᴰ.tail listed, why))
  ]
]

finish_lem :
    (i : Instance) (stopped_at time : ℕ) (gone : Bool)
    → finish i stopped_at (some (time, gone))
      ≡ some (set_state i stopped stopped_at, (if gone then term ∷ [] else term ∷ kill ∷ []), true)
finish_lem i stopped_at time true = refl
finish_lem i stopped_at time false = refl

-- Shutting down an instance that has a process ends, with more rounds at hand, a second or more
-- apart, than the grace period has seconds, and leaves the instance stopped. The process gets
-- SIGTERM alone where a round in time finds it gone, and SIGKILL after it only where a round comes
-- after the grace period.
pub shutdown_graceful_stops :
    (i : Instance) (grace now start stopped_at : ℕ) (rs : List Round)
    → 0 < i.process_id
    → Ticks start rs
    → grace < length rs
    → (i' : Instance) × (gone : Bool) × (shutdown_graceful i grace now start stopped_at rs
        ≡ some (i', (if gone then term ∷ [] else term ∷ kill ∷ []), true))
      × (i'.state ≡ stopped)
      × EndsAt start grace rs gone
unfolding shutdown_graceful
shutdown_graceful_stops i grace now start stopped_at rs process h long =
    let (time, gone, e, ends) =
      wait_ends start grace start rs (omega arith) (omega arith) h (omega arith) in
    let has_process : (i.process_id == 0) ≡ false = ground arith in
    let stopping_i = set_state i stopping now in
    (
      set_state stopping_i stopped stopped_at,
      gone,
      rw (has_process, e) (finish_lem stopping_i stopped_at time gone),
      set_state-state stopping_i stopped stopped_at,
      ends,
    )
