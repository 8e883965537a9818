-- ===== src/HighAvailability.antt =====
-- internal/ha/ha_manager.{h,c}: the election of a leader. The election thread is cut at the points where
-- another thread can come between: after the status is read, after the store has answered, after the
-- status is set, after a callback, and after the sleep. What the store answers to a write is an
-- argument. The request that goes out is a record, and its text stands for the JSON that `snprintf` makes.
pub mod Callbacks
pub mod Leaders
mod Tests
use sirah_c.Prelude.{
  ℕ, ◌+◌, ◌/◌, Bool, true, false, Option, none, some, List, [], ◌∷◌, String, if◌then◌else◌, u32,
}

pub data Status : Type 0 where
  follower leader candidate : Status

pub record Config : Type 0 where
  pub etcd_endpoint : String
  pub election_key : String
  pub component_name : String
  pub instance_id : String
  pub lease_duration_seconds : ℕ
  pub renewal_interval_seconds : ℕ
  pub failover_timeout_seconds : ℕ

pub data Event : Type 0 where
  becomes_leader loses_leadership : Event

-- Where the election thread stands: at the head of its loop, before the write to the store, with the
-- answer, before a callback, or asleep. The first argument is `is_leader`.
pub data Phase : Type 0 where
  absent : Phase
  begins : Phase
  writes : Bool → Phase
  settles : Bool → Bool → Phase
  notifies : Bool → Event → Phase
  sleeps : ℕ → Phase
  exited : Phase

-- `calls` are the callbacks made so far, the last one first; a callback that is not registered is
-- `false`.
pub record Manager : Type 0 where
  pub config : Config
  pub status : Status
  pub leadership_transitions : ℕ
  pub election_running : Bool
  pub on_become_leader : Bool
  pub on_lose_leadership : Bool
  pub phase : Phase
  pub calls : List Event

unfoldable pub new : Config → Manager
new c = record {
  config = c;
  status = follower;
  leadership_transitions = 0;
  election_running = false;
  on_become_leader = false;
  on_lose_leadership = false;
  phase = absent;
  calls = [];
}

-- `created` is the answer of `pthread_create`.
unfoldable pub start : Manager → Bool → Manager × Bool
start m created =
    if m.election_running
    then (m, true)
    else (if created
        then (
          record m { election_running = true; leadership_transitions = 0; phase = begins },
          true,
        )
        else (record m { leadership_transitions = 0 }, false))

unfoldable pub stop : Manager → Manager
stop m = record m { election_running = false }

unfoldable pub get_status : Manager → Status
get_status m = m.status

abbrev pub leads : Status → Bool
leads leader = true
leads follower = false
leads candidate = false

unfoldable pub is_leader : Manager → Bool
unfolding get_status
is_leader m = leads (get_status m)

unfoldable pub set_become_leader_callback : Manager → Bool → Manager
set_become_leader_callback m callback = record m { on_become_leader = callback }

unfoldable pub set_lose_leadership_callback : Manager → Bool → Manager
set_lose_leadership_callback m callback = record m { on_lose_leadership = callback }

unfoldable pub step_down : Manager → Manager
step_down m = record m { status = follower }

unfoldable pub force_election : Manager → Manager
unfolding step_down
force_election m = step_down m

-- What `etcd_cas_write` asks for: the key, the new value, and the value that must be there.
pub record Write : Type 0 where
  pub key : String
  pub leader : String
  pub id : String
  pub since : ℕ
  pub prev_value : Option String
  pub ttl : ℕ

-- The write of both branches of the loop.
unfoldable pub lease_write : Manager → ℕ → Write
lease_write m now = record {
  key = m.config.election_key;
  leader = m.config.component_name;
  id = m.config.instance_id;
  since = now;
  prev_value = none;
  ttl = m.config.lease_duration_seconds;
}

abbrev pub sleep_seconds : Manager → Bool → ℕ
sleep_seconds m true = m.config.renewal_interval_seconds
sleep_seconds m false = m.config.failover_timeout_seconds / 2

abbrev pub to_sleep : Manager → Bool → Manager
to_sleep m was_leader = record m { phase = sleeps (sleep_seconds m was_leader) }

-- The status after the answer, and the callback that is due.
abbrev pub settle : Manager → Bool → Bool → Manager
settle m true true = to_sleep m true
settle m true false =
    if m.on_lose_leadership
    then record m { status = follower; phase = notifies true loses_leadership }
    else to_sleep (record m { status = follower }) true
settle m false true =
    if m.on_become_leader
    then record m {
      status = leader;
      leadership_transitions = u32 (m.leadership_transitions + 1);
      phase = notifies false becomes_leader;
    }
    else to_sleep
        (record m { status = leader; leadership_transitions = u32 (m.leadership_transitions + 1) })
        false
settle m false false = to_sleep m false

abbrev pub thread_step_in : Phase → Bool → Manager → Manager
thread_step_in absent answer m = m
thread_step_in begins answer m =
    if m.election_running
    then record m { phase = writes (leads m.status) }
    else record m { phase = exited }
thread_step_in (writes was_leader) answer m = record m { phase = settles was_leader answer }
thread_step_in (settles was_leader renewed) answer m = settle m was_leader renewed
thread_step_in (notifies was_leader event) answer m =
    to_sleep (record m { calls = event ∷ m.calls }) was_leader
thread_step_in (sleeps seconds) answer m = record m { phase = begins }
thread_step_in exited answer m = m

-- One step of the election thread; the answer matters before the write alone.
unfoldable pub thread_step : Bool → Manager → Manager
thread_step answer m = thread_step_in m.phase answer m
