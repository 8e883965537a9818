-- ===== src/InstanceLifecycle/States.antt =====
-- The states of an instance in internal/monitor/instance_lifecycle.c: their names, and setting them.
use sirah_c.Prelude.{
  ℕ, ◌≡◌, refl, sym, ap, ◌∙◌, true, Bool-cases, inl, inr, ==_iff, ◌==◌, if◌then◌else◌,
}
use sirah_c.InstanceLifecycle.{
  InstanceState, created, running, ready, not_ready, restarting, stopping, stopped, failed,
  draining, index, same_state, Instance, set_state, state_to_string, string_to_state,
}

-- Reading the name of a state gives the state back.
pub string_to_state-state_to_string : (s : InstanceState) → string_to_state (state_to_string s) ≡ s
unfolding string_to_state state_to_string
string_to_state-state_to_string created = refl
string_to_state-state_to_string running = refl
string_to_state-state_to_string ready = refl
string_to_state-state_to_string not_ready = refl
string_to_state-state_to_string restarting = refl
string_to_state-state_to_string stopping = refl
string_to_state-state_to_string stopped = refl
string_to_state-state_to_string failed = refl
string_to_state-state_to_string draining = refl

abbrev state_at : ℕ → InstanceState
state_at n =
    if n == 0
    then created
    else (if n == 1
        then running
        else (if n == 2
            then ready
            else (if n == 3
                then not_ready
                else (if n == 4
                    then restarting
                    else (if n == 5
                        then stopping
                        else (if n == 6
                            then stopped
                            else (if n == 7 then failed else (draining))))))))

state_at-index : (s : InstanceState) → state_at (index s) ≡ s
state_at-index created = refl
state_at-index running = refl
state_at-index ready = refl
state_at-index not_ready = refl
state_at-index restarting = refl
state_at-index stopping = refl
state_at-index stopped = refl
state_at-index failed = refl
state_at-index draining = refl

pub same_state→≡ : (s t : InstanceState) → same_state s t ≡ true → s ≡ t
same_state→≡ s t same =
    sym (state_at-index s) ∙ ap state_at ((==_iff (index s) (index t)).0 same) ∙ state_at-index t

pub set_state-state : (i : Instance) (s : InstanceState) (now : ℕ) → (set_state i s now).state ≡ s
unfolding set_state
set_state-state i s now = elim (Bool-cases (same_state i.state s)) [
  | inl same ↦ rw same (same_state→≡ i.state s same)
  | inr other ↦ rw other refl
]

-- Setting a state touches the state and the time of its change alone.
pub set_state-process_id :
    (i : Instance) (s : InstanceState) (now : ℕ) → (set_state i s now).process_id ≡ i.process_id
unfolding set_state
set_state-process_id i s now = elim (Bool-cases (same_state i.state s)) [
  | inl same ↦ rw same refl
  | inr other ↦ rw other refl
]

pub set_state-restart_count :
    (i : Instance) (s : InstanceState) (now : ℕ)
    → (set_state i s now).restart_count ≡ i.restart_count
unfolding set_state
set_state-restart_count i s now = elim (Bool-cases (same_state i.state s)) [
  | inl same ↦ rw same refl
  | inr other ↦ rw other refl
]
