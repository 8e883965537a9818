-- ===== src/InstanceLifecycle/Tests.antt =====
-- Runs of the model of internal/monitor/instance_lifecycle.c on small inputs.
use sirah_c.Prelude.{
  ◌≡◌, ◌≤◌, refl, Bool, true, false, none, some, List, [], ◌∷◌, arith, if◌then◌else◌,
}
use sirah_c.InstanceLifecycle.{stopped, pos, text, Instance, set_process}
use sirah_c.InstanceLifecycle.Manager.{create, get}
use sirah_c.InstanceLifecycle.Shutdown.{
  Round, term, kill, shutdown_graceful, EndsAt, shutdown_graceful_stops,
}
use sirah_c.InstanceLifecycle.Restarts.{MonitorRound, watch, watch_bounded}

-- An instance that was stopped on purpose, with the process 7 and one restart.
abbrev web : Instance
web = record {
  pod_name = "web";
  namespace = "default";
  node_name = "node-1";
  process_id = 7;
  process_path = some "/usr/bin/qemu";
  memory_limit_bytes = 0;
  cpu_limit_millicores = 0;
  state = stopped;
  state_change_time = 10;
  creation_time = 5;
  start_time = 0;
  restart_count = 1;
  last_restart_time = 8;
  consecutive_failures = 1;
  last_exit_code = pos 137;
  last_failure_reason = text "out of memory";
  last_failure_time = 7;
  is_ready = false;
  ready_time = 0;
}

abbrev round : MonitorRound
round = record { exists = λ pid. false; now = 20 }

watch_bounded_example :
    let i' = watch true web (round ∷ []) in
    (1 ≤ i'.restart_count)
    × (i'.restart_count ≤ 5)
    × (◌≡◌ {A = Bool} true true → i'.restart_count ≡ 1)
watch_bounded_example = watch_bounded true web (round ∷ []) (omega arith)

abbrev waits : List Round
waits =
    record { now = 30; exists = true }
    ∷ record { now = 31; exists = false }
    ∷ record { now = 32; exists = false }
    ∷ []

shutdown_graceful_stops_example :
    (i' : Instance) × (gone : Bool) × (shutdown_graceful web 2 30 30 33 waits
      ≡ some (i', (if gone then term ∷ [] else term ∷ kill ∷ []), true))
    × (i'.state ≡ stopped)
    × EndsAt 30 2 waits gone
shutdown_graceful_stops_example =
    shutdown_graceful_stops web 2 30 30 33 waits (omega arith)
      (omega arith, (omega arith, (omega arith, tt))) (omega arith)

none_yet : get (create 5) "web" ≡ none
unfolding get create
none_yet = refl

no_process : (set_process web 0 "/usr/bin/qemu").1 ≡ false
unfolding set_process
no_process = refl
