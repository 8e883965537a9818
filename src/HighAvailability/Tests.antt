-- ===== src/HighAvailability/Tests.antt =====
-- Managers of internal/ha/ha_manager.c, one and two.
use sirah_c.Prelude.{Bool, true, false, Option, none, some, [], ◌∷◌, String}
use sirah_c.HighAvailability.{
  leader, Config, becomes_leader, begins, sleeps, Manager, Write, start, thread_step,
}
use sirah_c.HighAvailability.Callbacks.{
  Reachable, here, steps, starts, IsAnnounced, registered, Reachable-IsAnnounced,
}

abbrev config : String → Config
config id = record {
  etcd_endpoint = "localhost:2379";
  election_key = "/sirah/leader";
  component_name = "scheduler";
  instance_id = id;
  lease_duration_seconds = 30;
  renewal_interval_seconds = 10;
  failover_timeout_seconds = 40;
}

-- A manager that is started.
abbrev electing : Manager
unfolding start
electing = (start (registered (config "a")) true).0

won :
    Reachable
      (registered (config "a"))
      (thread_step true (thread_step true (thread_step true electing)))
unfolding registered start electing
won = steps true (steps true (steps true (starts true here tt)))

Reachable-IsAnnounced_example :
    IsAnnounced (thread_step true (thread_step true (thread_step true electing)))
Reachable-IsAnnounced_example =
    Reachable-IsAnnounced (config "a")
      (thread_step true (thread_step true (thread_step true electing))) won

abbrev leading : Manager
leading = record {
  config = config "a";
  status = leader;
  leadership_transitions = 1;
  election_running = true;
  on_become_leader = true;
  on_lose_leadership = true;
  phase = sleeps 20;
  calls = becomes_leader ∷ [];
}

abbrev due : String → Manager
due id = record leading { config = config id; phase = begins; calls = [] }

-- A store of one key that compares where it is asked to.
abbrev matches : Option String → Option String → Bool
matches none held = true
matches (some prev) none = false
matches (some prev) (some held) = true

abbrev store : Option String → Write → Option String × Bool
store held w = (some w.id, matches w.prev_value held)
