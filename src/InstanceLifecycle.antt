-- ===== src/InstanceLifecycle.antt =====
-- internal/monitor/instance_lifecycle.{h,c}: the record of an instance and its operations. An argument
-- is the object that a pointer leads to (a null pointer is turned away before any state is read), and
-- `now` is what `time(NULL)` answers. Counters are `uint32_t`; a process id is a number, 0 where the code
-- has none or a negative one. `strdup` is taken to succeed.
pub mod States
pub mod Manager
pub mod Shutdown
pub mod Restarts
pub mod Registry
pub mod Reasons
mod Tests
use sirah_c.Prelude.{
  ℕ, zero, suc, ◌+◌, ◌*◌, Bool, true, false, not, ◌||◌, Option, none, some, String, str_eq, ltb,
  leb, ◌==◌, if◌then◌else◌, u32,
}

pub data InstanceState : Type 0 where
  created running ready not_ready restarting stopping stopped failed draining : InstanceState

-- The value of the enumerator.
abbrev pub index : InstanceState → ℕ
index created = 0
index running = 1
index ready = 2
index not_ready = 3
index restarting = 4
index stopping = 5
index stopped = 6
index failed = 7
index draining = 8

abbrev pub same_state : InstanceState → InstanceState → Bool
same_state s t = index s == index t

-- An exit code; -1 until there is one.
pub data ExitCode : Type 0 where
  pos : ℕ → ExitCode
  negsuc : ℕ → ExitCode

-- A pointer to a text: null, to a text, or to memory that has been freed.
pub data Text : Type 0 where
  null : Text
  text : String → Text
  dangling : Text

pub record Instance : Type 0 where
  pub pod_name : String
  pub namespace : String
  pub node_name : String
  pub process_id : ℕ
  pub process_path : Option String
  pub memory_limit_bytes : ℕ
  pub cpu_limit_millicores : ℕ
  pub state : InstanceState
  pub state_change_time : ℕ
  pub creation_time : ℕ
  pub start_time : ℕ
  pub restart_count : ℕ
  pub last_restart_time : ℕ
  pub consecutive_failures : ℕ
  pub last_exit_code : ExitCode
  pub last_failure_reason : Text
  pub last_failure_time : ℕ
  pub is_ready : Bool
  pub ready_time : ℕ

unfoldable pub new : String → String → String → ℕ → Instance
new pod_name namespace node_name now = record {
  pod_name = pod_name;
  namespace = namespace;
  node_name = node_name;
  process_id = 0;
  process_path = none;
  memory_limit_bytes = 0;
  cpu_limit_millicores = 0;
  state = created;
  state_change_time = now;
  creation_time = now;
  start_time = 0;
  restart_count = 0;
  last_restart_time = 0;
  consecutive_failures = 0;
  last_exit_code = negsuc 0;
  last_failure_reason = null;
  last_failure_time = 0;
  is_ready = false;
  ready_time = 0;
}

unfoldable pub set_process : Instance → ℕ → String → Instance × Bool
set_process i process_id process_path =
    if process_id == 0
    then (i, false)
    else (record i { process_id = process_id; process_path = some process_path }, true)

unfoldable pub set_limits : Instance → ℕ → ℕ → Instance
set_limits i memory_bytes cpu_millicores = record i {
  memory_limit_bytes = memory_bytes;
  cpu_limit_millicores = cpu_millicores;
}

unfoldable pub set_state : Instance → InstanceState → ℕ → Instance
set_state i new_state now =
    if not (same_state i.state new_state)
    then record i { state = new_state; state_change_time = now }
    else i

unfoldable pub set_ready : Instance → ℕ → Instance
set_ready i now = if not i.is_ready then record i { is_ready = true; ready_time = now } else i

unfoldable pub set_not_ready : Instance → Instance
set_not_ready i = record i { is_ready = false }

unfoldable pub record_restart : Instance → ℕ → Instance
record_restart i now = record i {
  restart_count = u32 (i.restart_count + 1);
  last_restart_time = now;
  state = restarting;
}

-- The pointer after `free` and, where there is a reason, the copy; `none` frees a text twice.
unfoldable pub replace_reason : Text → Option String → Option Text
replace_reason dangling reason = none
replace_reason _ (some reason) = some (text reason)
replace_reason null none = some null
replace_reason (text old) none = some dangling

abbrev pub with_failure : Instance → ExitCode → ℕ → Text → Instance
with_failure i exit_code now reason = record i {
  last_exit_code = exit_code;
  last_failure_time = now;
  consecutive_failures = u32 (i.consecutive_failures + 1);
  state = failed;
  last_failure_reason = reason;
}

abbrev pub fail_with : Instance → ExitCode → ℕ → Option Text → Option Instance
fail_with i exit_code now none = none
fail_with i exit_code now (some reason) = some (with_failure i exit_code now reason)

unfoldable pub record_failure : Instance → ExitCode → Option String → ℕ → Option Instance
unfolding replace_reason
record_failure i exit_code failure_reason now =
    fail_with i exit_code now (replace_reason i.last_failure_reason failure_reason)

unfoldable pub clear_failures : Instance → Instance
clear_failures i = record i { consecutive_failures = 0 }

unfoldable pub should_restart : Instance → Bool
should_restart i =
    if same_state i.state draining || same_state i.state stopping || same_state i.state stopped
    then false
    else (if leb 5 i.restart_count then false else true)

-- The loop, with `rounds` for `restart_count - i`.
unfoldable pub double_delay : ℕ → ℕ → ℕ
double_delay zero delay = delay
double_delay (suc rounds) delay =
    let rest = double_delay rounds (u32 (delay * 2)) in if ltb delay 300 then rest else delay

unfoldable pub get_restart_delay : Instance → ℕ
unfolding double_delay
get_restart_delay i =
    let delay : ℕ = double_delay i.restart_count 1 in if ltb 300 delay then 300 else delay

unfoldable pub restart : Instance → ℕ → Instance × Bool
unfolding should_restart record_restart
restart i now = if not (should_restart i) then (i, false) else (record_restart i now, true)

unfoldable pub state_to_string : InstanceState → String
state_to_string created = "Created"
state_to_string running = "Running"
state_to_string ready = "Ready"
state_to_string not_ready = "NotReady"
state_to_string restarting = "Restarting"
state_to_string stopping = "Stopping"
state_to_string stopped = "Stopped"
state_to_string failed = "Failed"
state_to_string draining = "Draining"

unfoldable pub string_to_state : String → InstanceState
string_to_state s =
    if str_eq s "Created"
    then created
    else (if str_eq s "Running"
        then running
        else (if str_eq s "Ready"
            then ready
            else (if str_eq s "NotReady"
                then not_ready
                else (if str_eq s "Restarting"
                    then restarting
                    else (if str_eq s "Stopping"
                        then stopping
                        else (if str_eq s "Stopped"
                            then stopped
                            else (if str_eq s "Failed"
                                then failed
                                else (if str_eq s "Draining" then draining else failed))))))))
