-- ===== src/HighAvailability/Callbacks.antt =====
-- The callbacks of internal/ha/ha_manager.c against the status.
use sirah_c.Prelude.{
  ℕ, ◌≡◌, refl, Bool, true, false, List, [], ◌∷◌, Bool-cases, inl, inr, if_elim, subst,
}
use sirah_c.HighAvailability.{
  Status, follower, leader, Config, Event, becomes_leader, loses_leadership, Phase, absent, begins,
  writes, settles, notifies, sleeps, exited, Manager, new, start, set_become_leader_callback,
  set_lose_leadership_callback, stop, leads, step_down, settle, thread_step_in, thread_step,
}

-- No election thread runs: none has been created, or the last one has ended, for which `ha_manager_stop`
-- waits.
abbrev pub HasEnded : Phase → Type 0
HasEnded absent = Unit
HasEnded exited = Unit
HasEnded _ = ⊥

-- The states that the election thread and calls of `ha_manager_start`, also where it fails, and of
-- `ha_manager_stop` lead to. A stopped manager is started again after its thread has ended.
pub data Reachable (m : Manager) : Manager → Type 0 where
  here : Reachable m m
  steps : {n : Manager} (answer : Bool) → Reachable m n → Reachable m (thread_step answer n)
  starts :
      {n : Manager} (created : Bool)
      → Reachable m n
      → HasEnded n.phase
      → Reachable m (start n created).0
  stops : {n : Manager} → Reachable m n → Reachable m (stop n)

-- Callbacks that alternate, the last one first, beginning with the one for a new leader; the first
-- argument is whether the last one was that.
pub data Alternates : Bool → List Event → Type 0 where
  none_yet : Alternates false []
  became : {es : List Event} → Alternates false es → Alternates true (becomes_leader ∷ es)
  lost : {es : List Event} → Alternates true es → Alternates false (loses_leadership ∷ es)

-- The callbacks say what the status is, but for one that is due.
abbrev pub Agrees : Phase → Status → List Event → Type 0
Agrees absent s es = Alternates (leads s) es
Agrees begins s es = Alternates (leads s) es
Agrees (writes was_leader) s es = (was_leader ≡ leads s) × Alternates (leads s) es
Agrees (settles was_leader answer) s es = (was_leader ≡ leads s) × Alternates (leads s) es
Agrees (notifies was_leader becomes_leader) s es = (s ≡ leader) × Alternates false es
Agrees (notifies was_leader loses_leadership) s es = (s ≡ follower) × Alternates true es
Agrees (sleeps seconds) s es = Alternates (leads s) es
Agrees exited s es = Alternates (leads s) es

pub record IsAnnounced (m : Manager) : Type 0 where
  pub become : m.on_become_leader ≡ true
  pub lose : m.on_lose_leadership ≡ true
  pub agrees : Agrees m.phase m.status m.calls

settle-IsAnnounced :
    (m : Manager) (was_leader answer : Bool)
    → m.on_become_leader ≡ true
    → m.on_lose_leadership ≡ true
    → was_leader ≡ leads m.status
    → Alternates (leads m.status) m.calls
    → IsAnnounced (settle m was_leader answer)
settle-IsAnnounced m true true b l same a = record { become = b; lose = l; agrees = a }
settle-IsAnnounced m true false b l same a =
    rw l (record { become = b; lose = refl; agrees = (refl, rw same a) })
settle-IsAnnounced m false true b l same a =
    rw b (record { become = refl; lose = l; agrees = (refl, rw same a) })
settle-IsAnnounced m false false b l same a = record { become = b; lose = l; agrees = a }

step-IsAnnounced :
    (p : Phase) (answer : Bool) (m : Manager)
    → m.phase ≡ p
    → m.on_become_leader ≡ true
    → m.on_lose_leadership ≡ true
    → Agrees p m.status m.calls
    → IsAnnounced (thread_step_in p answer m)
step-IsAnnounced absent answer m at b l a = record { become = b; lose = l; agrees = rw at a }
step-IsAnnounced begins answer m at b l a = elim (Bool-cases m.election_running) [
  | inl running ↦ rw running (record { become = b; lose = l; agrees = (refl, a) })
  | inr stopped ↦ rw stopped (record { become = b; lose = l; agrees = a })
]
step-IsAnnounced (writes was_leader) answer m at b l a = record { become = b; lose = l; agrees = a }
step-IsAnnounced (settles was_leader renewed) answer m at b l a =
    settle-IsAnnounced m was_leader renewed b l a.0 a.1
step-IsAnnounced (notifies was_leader becomes_leader) answer m at b l a = record {
  become = b;
  lose = l;
  agrees = rw a.0 (became a.1);
}
step-IsAnnounced (notifies was_leader loses_leadership) answer m at b l a = record {
  become = b;
  lose = l;
  agrees = rw a.0 (lost a.1);
}
step-IsAnnounced (sleeps seconds) answer m at b l a = record { become = b; lose = l; agrees = a }
step-IsAnnounced exited answer m at b l a = record { become = b; lose = l; agrees = rw at a }

start_quiet :
    (m : Manager) (created : Bool)
    → Alternates (leads m.status) m.calls
    → IsAnnounced m
    → IsAnnounced (start m created).0
unfolding start
start_quiet m created quiet h =
    if_elim (λ (r : Manager × Bool). IsAnnounced r.0) m.election_running (λ running. h)
      (λ stopped.
        if_elim (λ (r : Manager × Bool). IsAnnounced r.0) created
          (λ made. record { become = h.become; lose = h.lose; agrees = quiet })
          (λ failed. record { become = h.become; lose = h.lose; agrees = h.agrees }))

start-IsAnnounced :
    (m : Manager) (p : Phase) (created : Bool)
    → m.phase ≡ p
    → HasEnded p
    → IsAnnounced m
    → IsAnnounced (start m created).0
unfolding start
start-IsAnnounced m absent created at ended h =
    let quiet : Alternates (leads m.status) m.calls =
      subst (λ q. Agrees q m.status m.calls) at h.agrees in
    start_quiet m created quiet h
start-IsAnnounced m exited created at ended h =
    let quiet : Alternates (leads m.status) m.calls =
      subst (λ q. Agrees q m.status m.calls) at h.agrees in
    start_quiet m created quiet h
start-IsAnnounced m begins created at ended h = absurd ended
start-IsAnnounced m (writes was_leader) created at ended h = absurd ended
start-IsAnnounced m (settles was_leader renewed) created at ended h = absurd ended
start-IsAnnounced m (notifies was_leader event) created at ended h = absurd ended
start-IsAnnounced m (sleeps seconds) created at ended h = absurd ended

-- A new manager on which both callbacks have been registered.
unfoldable pub registered : Config → Manager
unfolding new set_become_leader_callback set_lose_leadership_callback
registered c = set_lose_leadership_callback (set_become_leader_callback (new c) true) true

registered-IsAnnounced : (c : Config) → IsAnnounced (registered c)
unfolding registered
registered-IsAnnounced c = record { become = refl; lose = refl; agrees = none_yet }

-- On a new manager on which both callbacks have been registered, and as long as neither is registered anew
-- and nothing calls `ha_manager_step_down` or `ha_manager_force_election`: whatever the store answers,
-- and whenever the election is stopped and started again, the callbacks alternate, beginning with the one
-- for a new leader, and but for one that is due the last of them says whether the manager leads.
pub Reachable-IsAnnounced : (c : Config) (m : Manager) → Reachable (registered c) m → IsAnnounced m
unfolding thread_step stop
Reachable-IsAnnounced c m here = registered-IsAnnounced c
Reachable-IsAnnounced c m (steps {n} answer r) =
    let before = Reachable-IsAnnounced c n r in
    step-IsAnnounced n.phase answer n refl before.become before.lose before.agrees
Reachable-IsAnnounced c m (starts {n} created r ended) =
    start-IsAnnounced n n.phase created refl ended (Reachable-IsAnnounced c n r)
Reachable-IsAnnounced c m (stops {n} r) =
    let before = Reachable-IsAnnounced c n r in
    record { become = before.become; lose = before.lose; agrees = before.agrees }

-- From the sleep through the next turn of the loop to the sleep after it, with one answer of the store.
abbrev pub turn : Bool → Manager → Manager
turn answer m =
    thread_step answer
      (thread_step answer (thread_step answer (thread_step answer (thread_step answer m))))

-- A running manager that has stepped down in its sleep leads again after a turn with an answer of the
-- store, and the callback for a new leader is made though that for the loss of leadership was not.
pub step_down_repeats :
    (m : Manager) (seconds : ℕ)
    → m.phase ≡ sleeps seconds
    → m.election_running ≡ true
    → m.on_become_leader ≡ true
    → ((turn true (step_down m)).status ≡ leader)
      × ((turn true (step_down m)).calls ≡ becomes_leader ∷ m.calls)
unfolding thread_step step_down
step_down_repeats m seconds asleep running registered =
    rw (asleep, running, registered) (refl, refl)
