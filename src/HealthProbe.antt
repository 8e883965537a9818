-- ===== src/HealthProbe.antt =====
-- internal/probes/health_probe.{h,c}: the probes of a pod and what their results say of it. An argument
-- is the object that a pointer leads to (a null pointer is turned away before any state is read), and
-- `now` is what `time(NULL)` answers. The counters are `uint32_t`; `strdup` is taken to succeed.
pub mod Hysteresis
pub mod Gates
mod Tests
use sirah_c.Prelude.{
  ℕ, ◌+◌, Bool, true, false, not, ◌&&◌, ◌||◌, Option, none, some, List, [], ◌∷◌, ◌++◌, String, leb,
  ◌==◌, if◌then◌else◌, u32, length,
}

pub data ProbeType : Type 0 where
  startup readiness liveness : ProbeType

pub data ProbeResult : Type 0 where
  success failure timeout error : ProbeResult

-- `path` is `none` for a null pointer.
pub record HttpConfig : Type 0 where
  pub path : Option String
  pub port : ℕ
  pub host : Option String
  pub scheme : Option String

pub record TcpConfig : Type 0 where
  pub port : ℕ
  pub host : Option String

-- `command` is `none` for a null pointer.
pub record ExecConfig : Type 0 where
  pub command : Option (List String)

-- `handler_type`, with the member of `handler_config` that goes with it.
pub data Handler : Type 0 where
  http : HttpConfig → Handler
  tcp : TcpConfig → Handler
  exec : ExecConfig → Handler

pub record ProbeConfig : Type 0 where
  pub type : ProbeType
  pub handler : Handler
  pub initial_delay_seconds : ℕ
  pub timeout_seconds : ℕ
  pub period_seconds : ℕ
  pub success_threshold : ℕ
  pub failure_threshold : ℕ

pub record ProbeState : Type 0 where
  pub last_result : ProbeResult
  pub consecutive_successes : ℕ
  pub consecutive_failures : ℕ
  pub last_check_time : ℕ
  pub passed : Bool
  pub last_error : Option String

pub record Probe : Type 0 where
  pub pod_name : String
  pub namespace : String
  pub container_name : Option String
  pub pod_ip : String
  pub config : ProbeConfig
  pub state : ProbeState

pub record ProbeManager : Type 0 where
  pub pod_name : String
  pub namespace : String
  pub pod_ip : String
  pub probes : List Probe

unfoldable pub create : String → String → String → ProbeManager
create pod_name namespace pod_ip = record {
  pod_name = pod_name;
  namespace = namespace;
  pod_ip = pod_ip;
  probes = [];
}

abbrev pub cleared : ProbeState
cleared = record {
  last_result = success;
  consecutive_successes = 0;
  consecutive_failures = 0;
  last_check_time = 0;
  passed = false;
  last_error = none;
}

unfoldable pub fresh_probe : ProbeManager → ProbeConfig → Probe
fresh_probe m c = record {
  pod_name = m.pod_name;
  namespace = m.namespace;
  container_name = none;
  pod_ip = m.pod_ip;
  config = c;
  state = cleared;
}

-- `reallocated` says whether `realloc` succeeds.
unfoldable pub add_probe : ProbeManager → ProbeConfig → Bool → ProbeManager × Option Probe
unfolding fresh_probe
add_probe m c reallocated =
    if reallocated
    then (record m { probes = m.probes ++ fresh_probe m c ∷ [] }, some (fresh_probe m c))
    else (m, none)

-- What the operating system answers: `socket`, `inet_pton` on an address, `connect` to an address and a
-- port with a timeout.
pub record Network : Type 0 where
  pub opens_socket : Bool
  pub reads_address : String → Bool
  pub connects : String → ℕ → ℕ → Bool

unfoldable pub execute_http_probe : HttpConfig → ProbeResult
execute_http_probe c = elim c.path [ none ↦ error | some path ↦ success ]

unfoldable pub execute_tcp_probe : Network → String → TcpConfig → ℕ → ProbeResult
execute_tcp_probe net pod_ip c timeout_seconds =
    if c.port == 0
    then error
    else (if not net.opens_socket
        then error
        else (if not (net.reads_address pod_ip)
            then error
            else (if net.connects pod_ip c.port timeout_seconds then success else failure)))

unfoldable pub execute_exec_probe : ExecConfig → ProbeResult
execute_exec_probe c = elim c.command [
  | none ↦ error
  | some command ↦ if length command == 0 then error else success
]

unfoldable pub execute : Network → ProbeManager → ProbeConfig → ProbeResult
unfolding execute_http_probe execute_tcp_probe execute_exec_probe
execute net m c = elim c.handler [
  | http h ↦ execute_http_probe h
  | tcp t ↦ execute_tcp_probe net m.pod_ip t c.timeout_seconds
  | exec e ↦ execute_exec_probe e
]

abbrev pub is_success : ProbeResult → Bool
is_success success = true
is_success _ = false

abbrev pub set_passed : ProbeState → ProbeState × Bool
set_passed s = if s.passed then (s, false) else (record s { passed = true }, true)

abbrev pub unset_passed : ProbeState → ProbeState × Bool
unset_passed s = if s.passed then (record s { passed = false }, true) else (s, false)

-- The counters and the verdict after a result, and whether the verdict changed.
unfoldable pub judge : ProbeConfig → ProbeState → ProbeResult → ProbeState × Bool
judge c s result =
    let successes : ℕ = u32 (s.consecutive_successes + 1) in
    let failures : ℕ = u32 (s.consecutive_failures + 1) in
    let succeeded = record s { consecutive_successes = successes; consecutive_failures = 0 } in
    let failed = record s { consecutive_failures = failures; consecutive_successes = 0 } in
    if is_success result
    then (if leb c.success_threshold successes then set_passed succeeded else (succeeded, false))
    else (if leb c.failure_threshold failures then unset_passed failed else (failed, false))

unfoldable pub update_result : Probe → ProbeResult → ℕ → Probe × Bool
unfolding judge
update_result p result now =
    let (state, changed) = judge p.config p.state result in
    (record p { state = record state { last_result = result; last_check_time = now } }, changed)

abbrev pub same_type : ProbeType → ProbeType → Bool
same_type startup startup = true
same_type readiness readiness = true
same_type liveness liveness = true
same_type _ _ = false

-- The loops over the probes of a type: whether there is any, and whether all of them have passed. They
-- stop at the first that has not.
unfoldable pub survey : ProbeType → List Probe → Bool × Bool
survey t [] = (false, true)
survey t (p ∷ ps) =
    let (has, all_passed) = survey t ps in
    if same_type p.config.type t
    then (if p.state.passed then (true, all_passed) else (true, false))
    else (has, all_passed)

unfoldable pub is_startup_complete : ProbeManager → Bool
unfolding survey
is_startup_complete m =
    let (has_startup, all_startup_passed) = survey startup m.probes in
    not has_startup || all_startup_passed

unfoldable pub is_ready : ProbeManager → Bool
unfolding survey
is_ready m =
    let (has_startup, startup_complete) = survey startup m.probes in
    let (has_readiness, all_readiness_passed) = survey readiness m.probes in
    startup_complete && (not has_readiness || all_readiness_passed)

unfoldable pub is_alive : ProbeManager → Bool
unfolding survey
is_alive m =
    let (has_liveness, all_liveness_passed) = survey liveness m.probes in
    not has_liveness || all_liveness_passed

unfoldable pub find_state : ProbeType → List Probe → Option ProbeState
find_state t [] = none
find_state t (p ∷ ps) = if same_type p.config.type t then some p.state else find_state t ps

unfoldable pub get_state : ProbeManager → ProbeType → Option ProbeState
unfolding find_state
get_state m t = find_state t m.probes

-- `passing` and `failing`.
unfoldable pub tally : List Probe → ℕ × ℕ
tally [] = (0, 0)
tally (p ∷ ps) =
    let (passing, failing) = tally ps in
    if p.state.passed then (passing + 1, failing) else (passing, failing + 1)

-- `out_total`, `out_passing` and `out_failing`.
unfoldable pub get_stats : ProbeManager → ℕ × ℕ × ℕ
unfolding tally
get_stats m = let (passing, failing) = tally m.probes in (length m.probes, passing, failing)
