-- ===== src/InstanceLifecycle/Manager.antt =====
-- internal/monitor/instance_lifecycle.c: the manager of instances, with the body of its monitor thread
-- as one round. The manager's array of pointers is the list of the instances that they lead to. What
-- `kill(pid, 0)` answers is a function, `true` for a process that exists.
use sirah_c.Prelude.{
  ℕ, ◌+◌, Bool, true, false, not, ◌&&◌, Option, none, some, List, [], ◌∷◌, ◌++◌, map, String,
  str_eq, ltb, ◌==◌, if◌then◌else◌,
}
use sirah_c.InstanceLifecycle.{
  draining, failed, Instance, same_state, set_state, should_restart, record_restart,
}

pub record LifecycleManager : Type 0 where
  pub instances : List Instance
  pub running : Bool
  pub check_interval_seconds : ℕ
  pub max_restarts : ℕ
  pub initial_backoff_seconds : ℕ
  pub max_backoff_seconds : ℕ
  pub drain_mode : Bool
  pub grace_period_seconds : ℕ

unfoldable pub create : ℕ → LifecycleManager
create check_interval = record {
  instances = [];
  running = false;
  check_interval_seconds = if ltb 0 check_interval then check_interval else 10;
  max_restarts = 5;
  initial_backoff_seconds = 1;
  max_backoff_seconds = 300;
  drain_mode = false;
  grace_period_seconds = 30;
}

-- `reallocated` says whether `realloc` succeeds.
unfoldable pub add : LifecycleManager → Instance → Bool → LifecycleManager × Bool
add m i reallocated =
    if reallocated then (record m { instances = m.instances ++ i ∷ [] }, true) else (m, false)

-- The list without the first instance of the name, and whether there is one.
unfoldable pub remove_from : String → List Instance → List Instance × Bool
remove_from name [] = ([], false)
remove_from name (i ∷ is) =
    let (is', found) = remove_from name is in
    if str_eq i.pod_name name then (is, true) else (i ∷ is', found)

unfoldable pub remove : LifecycleManager → String → LifecycleManager × Bool
unfolding remove_from
remove m name =
    let (is, found) = remove_from name m.instances in (record m { instances = is }, found)

unfoldable pub find : String → List Instance → Option Instance
find name [] = none
find name (i ∷ is) = if str_eq i.pod_name name then some i else find name is

unfoldable pub get : LifecycleManager → String → Option Instance
unfolding find
get m name = find name m.instances

abbrev pub after_death : Bool → Instance → ℕ → Instance
after_death drain_mode dead now =
    if not drain_mode && should_restart dead then record_restart dead now else dead

unfoldable pub check_instance : Bool → (ℕ → Bool) → ℕ → Instance → Instance
check_instance drain_mode exists now i =
    if ltb 0 i.process_id
    then (if exists i.process_id then i else after_death drain_mode (set_state i failed now) now)
    else i

unfoldable pub monitor_round : LifecycleManager → (ℕ → Bool) → ℕ → LifecycleManager
unfolding check_instance
monitor_round m exists now = record m {
  instances = map (check_instance m.drain_mode exists now) m.instances;
}

-- `created` says whether `pthread_create` succeeds.
unfoldable pub start : LifecycleManager → Bool → LifecycleManager × Bool
start m created =
    if m.running
    then (m, true)
    else (if created then (record m { running = true }, true) else (m, false))

unfoldable pub stop : LifecycleManager → LifecycleManager × Bool
stop m = if not m.running then (m, true) else (record m { running = false }, true)

unfoldable pub check_health : (ℕ → Bool) → Instance → Bool
check_health exists i = if i.process_id == 0 then false else exists i.process_id

unfoldable pub enable_drain : LifecycleManager → LifecycleManager
enable_drain m = record m { drain_mode = true }

unfoldable pub disable_drain : LifecycleManager → LifecycleManager
disable_drain m = record m { drain_mode = false }

unfoldable pub count_draining : List Instance → ℕ
count_draining [] = 0
count_draining (i ∷ is) =
    let rest : ℕ = count_draining is in if same_state i.state draining then rest + 1 else rest

unfoldable pub get_draining_count : LifecycleManager → ℕ
unfolding count_draining
get_draining_count m = count_draining m.instances
