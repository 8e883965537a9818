-- ===== src/Scheduler.antt =====
-- internal/scheduler/scheduler.{h,c}: the scheduler's nodes and the assignments of pods to them. An
-- argument is the object that a pointer leads to (a null pointer is turned away before any state is
-- read); allocation is taken to succeed, and the `int` and `long` amounts are not negative and stay
-- within their types. The parallel arrays `assigned_pods` and `assigned_nodes` are one list of pairs.
pub mod Scoring
pub mod Placement
pub mod Accounting
pub mod Calls
pub mod Invariant
pub mod Choice
pub mod Weights
pub mod Binding
mod Tests
use sirah_c.Prelude.{
  ℕ, ◌*◌, Bool, true, false, Option, none, some, List, [], ◌∷◌, ◌++◌, String, str_eq, leb,
  if◌then◌else◌, length, cons_to,
}

-- The return codes 0 and -1.
pub data Status : Type 0 where
  ok error : Status

pub record Request : Type 0 where
  pub cpu_millicores : ℕ
  pub memory_bytes : ℕ
  pub ephemeral_storage : ℕ

pub record Node : Type 0 where
  pub node_name : String
  pub status : String
  pub allocatable_cpus : ℕ
  pub allocatable_memory : ℕ
  pub allocated_cpus : ℕ
  pub allocated_memory : ℕ
  pub pod_count : ℕ
  pub max_pods : ℕ
  pub taints : List String
  pub labels : List (String × String)
  pub last_heartbeat : ℕ

pub record Pod : Type 0 where
  pub pod_name : String
  pub namespace : String
  pub request : Request
  pub pod_affinity_keys : List String
  pub pod_anti_affinity_keys : List String
  pub required_node_labels : List String
  pub preferred_node_labels : List String
  pub tolerated_taints : List String
  pub priority : ℕ
  pub preemption_enabled : Bool

pub record Scheduler : Type 0 where
  pub nodes : List Node
  pub node_capacity : ℕ
  pub assigned : List (String × String)
  pub assignment_capacity : ℕ
  pub running : Bool
  pub enable_bin_packing : Bool
  pub enable_pod_spread : Bool
  pub enable_affinity : Bool
  pub enable_topology_spread : Bool
  pub weight_bin_packing : ℕ
  pub weight_pod_spread : ℕ
  pub weight_affinity : ℕ

unfoldable pub new : Scheduler
new = record {
  nodes = [];
  node_capacity = 10;
  assigned = [];
  assignment_capacity = 5000;
  running = false;
  enable_bin_packing = true;
  enable_pod_spread = true;
  enable_affinity = true;
  enable_topology_spread = true;
  weight_bin_packing = 40;
  weight_pod_spread = 30;
  weight_affinity = 20;
}

unfoldable pub init : Scheduler → Scheduler × Status
init s = (record s { running = true }, ok)

-- `scheduler_run` up to its loop, which only sleeps until the scheduler is shut down.
unfoldable pub begin_run : Scheduler → Scheduler
begin_run s = record s { running = true }

unfoldable pub shutdown : Scheduler → Scheduler
shutdown s = record s { running = false }

fresh_node : String → ℕ → ℕ → ℕ → Node
fresh_node name cpu memory now = record {
  node_name = name;
  status = "Ready";
  allocatable_cpus = cpu;
  allocatable_memory = memory;
  allocated_cpus = 0;
  allocated_memory = 0;
  pod_count = 0;
  max_pods = 110;
  taints = [];
  labels = [];
  last_heartbeat = now;
}

unfoldable pub add_node : Scheduler → String → ℕ → ℕ → ℕ → Scheduler × Status
unfolding fresh_node
add_node s name cpu memory now = (
  record s {
    nodes = s.nodes ++ fresh_node name cpu memory now ∷ [];
    node_capacity =
        if leb s.node_capacity (length s.nodes) then s.node_capacity * 2 else s.node_capacity;
  },
  ok,
)

-- `get_node`: the first node of the name.
unfoldable pub find_node : String → List Node → Option Node
find_node name [] = none
find_node name (n ∷ ns) = if str_eq n.node_name name then some n else find_node name ns

unfoldable pub get_node : Scheduler → String → Option Node
unfolding find_node
get_node s name = find_node name s.nodes

-- The loops that change the first node of a name and return; `none` where there is no such node.
unfoldable pub update_node : String → (Node → Node) → List Node → Option (List Node)
update_node name f [] = none
update_node name f (n ∷ ns) =
    let rest = cons_to n (update_node name f ns) in
    if str_eq n.node_name name then some (f n ∷ ns) else rest

abbrev put_nodes : Scheduler → Option (List Node) → Scheduler × Status
put_nodes s none = (s, error)
put_nodes s (some ns) = (record s { nodes = ns }, ok)

unfoldable pub update_node_status : Scheduler → String → String → ℕ → Scheduler × Status
unfolding update_node
update_node_status s name status now =
    put_nodes s (update_node name (λ n. record n { status = status; last_heartbeat = now }) s.nodes)

unfoldable pub add_node_label : Scheduler → String → String → String → Scheduler × Status
unfolding update_node
add_node_label s name key value =
    put_nodes s
      (update_node name (λ n. record n { labels = n.labels ++ (key, value) ∷ [] }) s.nodes)

unfoldable pub add_node_taint : Scheduler → String → String → Scheduler × Status
unfolding update_node
add_node_taint s name taint =
    put_nodes s (update_node name (λ n. record n { taints = n.taints ++ taint ∷ [] }) s.nodes)

unfoldable pub remove_first : String → List String → Option (List String)
remove_first x [] = none
remove_first x (y ∷ ys) =
    let rest = cons_to y (remove_first x ys) in if str_eq y x then some ys else rest

-- A node of the name that lacks the taint does not end the search.
unfoldable pub remove_taint : String → String → List Node → Option (List Node)
unfolding remove_first
remove_taint name taint [] = none
remove_taint name taint (n ∷ ns) =
    let rest = cons_to n (remove_taint name taint ns) in
    if str_eq n.node_name name
    then elim (remove_first taint n.taints) [
      | none ↦ rest
      | some ts ↦ some (record n { taints = ts } ∷ ns)
    ]
    else rest

unfoldable pub remove_node_taint : Scheduler → String → String → Scheduler × Status
unfolding remove_taint
remove_node_taint s name taint = put_nodes s (remove_taint name taint s.nodes)

unfoldable pub cordon_node : Scheduler → String → ℕ → Scheduler × Status
unfolding update_node_status
cordon_node s name now = update_node_status s name "Cordoned" now

unfoldable pub uncordon_node : Scheduler → String → ℕ → Scheduler × Status
unfolding update_node_status
uncordon_node s name now = update_node_status s name "Ready" now

-- The loop over the assignments only prints.
unfoldable pub drain_node : Scheduler → String → Scheduler × Status
unfolding update_node
drain_node s name = put_nodes s (update_node name (λ n. record n { status = "Draining" }) s.nodes)
