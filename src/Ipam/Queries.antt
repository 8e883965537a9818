-- ===== src/Ipam/Queries.antt =====
-- internal/ipam/ipam_manager.c: the operations that only read.
use sirah_c.Prelude.{
  ℕ, ◌+◌, ◌-◌, ◌*◌, Bool, true, false, Option, none, some, List, [], ◌∷◌, String, if◌then◌else◌,
  u32, length,
}
use sirah_c.Ipam.{Node, Manager}
use sirah_c.Ipam.Bytes.{ntohl}
use sirah_c.Ipam.Pools.{is_allocated, find_node}

unfoldable pub get_node_pod_cidr : Manager → String → Option ℕ
unfolding find_node
get_node_pod_cidr m name = elim (find_node name m.nodes) [
  | none ↦ none
  | some n ↦ some n.node_cidr_start
]

-- The name of the first node that holds the address.
unfoldable pub holder : ℕ → List Node → Option String
unfolding is_allocated
holder ip [] = none
holder ip (n ∷ ns) = if is_allocated ip n.pool.allocated_ips then some n.node_name else holder ip ns

unfoldable pub get_ip_info : Manager → ℕ → Option String
unfolding holder
get_ip_info m ip = holder ip m.nodes

unfoldable pub get_node_ips : Manager → String → Option (List ℕ)
unfolding find_node
get_node_ips m name = elim (find_node name m.nodes) [
  | none ↦ none
  | some n ↦ some n.pool.allocated_ips
]

unfoldable pub is_ip_available : Manager → ℕ → Bool
unfolding is_allocated
is_ip_available m ip =
    if is_allocated ip m.pod_ips.allocated_ips
    then false
    else (if is_allocated ip m.service_ips.allocated_ips then false else true)

pub record Stats : Type 0 where
  pub nodes : ℕ
  pub allocated_pods : ℕ
  pub allocated_services : ℕ
  pub available_pods : ℕ
  pub available_services : ℕ

-- 256 addresses for each node.
unfoldable pub get_stats : Manager → Stats
unfolding ntohl
get_stats m =
    let pods : ℕ = length m.pod_ips.allocated_ips in
    let services : ℕ = length m.service_ips.allocated_ips in
    let total_services : ℕ = u32 (ntohl m.service_end + 4294967296 - ntohl m.service_start) in
    record {
      nodes = length m.nodes;
      allocated_pods = pods;
      allocated_services = services;
      available_pods = u32 (u32 (length m.nodes * 256) + 4294967296 - pods);
      available_services = u32 (total_services + 4294967296 - services);
    }
