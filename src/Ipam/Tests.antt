-- ===== src/Ipam/Tests.antt =====
-- Runs of the manager of internal/ipam/ipam_manager.c, and the theorems at concrete inputs.
use sirah_c.Prelude.{ℕ, ◌+◌, ◌≡◌, refl, true, some, [], ◌∷◌, String, ◌==◌, if◌then◌else◌}
use sirah_c.Ipam.{Node, Manager, cidr_range}
use sirah_c.Ipam.Pools.{
  first_host, last_host, get_next_available_ip, find_node, register_node, allocate_pod_ip,
  release_pod_ip, allocate_service_ip,
}
use sirah_c.Ipam.Allocation.{FirstFree, get_next_available_ip-FirstFree}
use sirah_c.Ipam.Sharing.{count, held}
use sirah_c.Ipam.Given.{allocate_pod_ip_fresh, release_pod_ip-allocate_pod_ip}

-- 10.244.0.0 and 10.244.255.255, 10.96.0.0 and 10.96.0.255, as `s_addr` holds them.
abbrev empty : Manager
empty = record {
  cluster_start = 62474;
  cluster_end = 4294964234;
  service_start = 24586;
  service_end = 4278214666;
  nodes = [];
  node_capacity = 32;
  node_room = 32;
  pod_ips = record { allocated_ips = []; ip_capacity = 256; room = 256 };
  service_ips = record { allocated_ips = []; ip_capacity = 64; room = 64 };
}

abbrev node_at : String → ℕ → ℕ → Node
node_at name first last = record {
  node_name = name;
  node_cidr_start = first;
  node_cidr_end = last;
  pool = record { allocated_ips = []; ip_capacity = 256; room = 256 };
}

-- 10.244.0.0/24.
abbrev one_node : Manager
one_node = record empty { nodes = node_at "a" 62474 4278252554 ∷ [] }

-- The mask of a /16 leaves nothing of 10.244.0.0 in network byte order.
masked_away :
    cidr_range (record { address = 62474; prefix = some 16 })
    ≡ some (record { network = 0; broadcast = 65535; prefix_len = 16 })
unfolding cidr_range
masked_away = refl

registers_a : register_node empty "a" true true ≡ some (one_node, some 62474)
unfolding register_node
registers_a = refl

get_next_available_ip-FirstFree_example :
    FirstFree
      (first_host 62474)
      (last_host 4278252554)
      []
      (get_next_available_ip one_node 62474 4278252554)
get_next_available_ip-FirstFree_example = get_next_available_ip-FirstFree one_node 62474 4278252554

-- 10.244.0.2 is the first address given.
abbrev one_pod : Manager
one_pod = record one_node {
  nodes =
      record (node_at "a" 62474 4278252554) {
        pool = record { allocated_ips = 33616906 ∷ []; ip_capacity = 256; room = 256 };
      }
      ∷ [];
  pod_ips = record { allocated_ips = 33616906 ∷ []; ip_capacity = 256; room = 256 };
}

gives_first : allocate_pod_ip one_node "a" true true ≡ some (one_pod, some 33616906)
unfolding allocate_pod_ip
gives_first = refl

allocate_pod_ip_fresh_example :
    ((n : Node) × (find_node "a" one_node.nodes ≡ some n)
      × FirstFree (first_host n.node_cidr_start) (last_host n.node_cidr_end) [] (some 33616906))
    × (count 33616906 one_pod.pod_ips.allocated_ips ≡ 1)
    × ((x : ℕ)
        → (held x one_pod.nodes ≡ held x one_node.nodes + (if 33616906 == x then 1 else 0))
          × (count x one_pod.pod_ips.allocated_ips ≡ count x [] + (if 33616906 == x then 1 else 0)))
allocate_pod_ip_fresh_example =
    allocate_pod_ip_fresh one_node one_pod "a" 33616906 true true gives_first

release_pod_ip-allocate_pod_ip_example :
    ((release_pod_ip one_pod 33616906).1 ≡ true)
    × ((x : ℕ)
        → (held x (release_pod_ip one_pod 33616906).0.nodes ≡ held x one_node.nodes)
          × (count x (release_pod_ip one_pod 33616906).0.pod_ips.allocated_ips ≡ count x []))
release_pod_ip-allocate_pod_ip_example =
    release_pod_ip-allocate_pod_ip one_node one_pod "a" 33616906 true true gives_first

-- 10.96.0.2.
abbrev one_service : Manager
one_service = record empty {
  service_ips = record { allocated_ips = 33579018 ∷ []; ip_capacity = 64; room = 64 };
}

gives_service : allocate_service_ip empty true ≡ some (one_service, some 33579018)
unfolding allocate_service_ip
gives_service = refl

abbrev full : Manager
full = record empty {
  service_ips = record { allocated_ips = 33579018 ∷ []; ip_capacity = 1; room = 1 };
}

-- 10.244.1.0/24.
abbrev second : Node
second = node_at "b" 128010 4278318090

abbrev two_nodes : Manager
two_nodes = record empty { nodes = node_at "a" 62474 4278252554 ∷ second ∷ [] }

abbrev without_a : Manager
without_a = record empty { nodes = second ∷ [] }

abbrev with_c : Manager
with_c = record empty { nodes = second ∷ node_at "c" 128010 4278318090 ∷ [] }
