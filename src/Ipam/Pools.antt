-- ===== src/Ipam/Pools.antt =====
-- internal/ipam/ipam_manager.c: the operations that change nodes, pod addresses and service
-- addresses, and the search for an address.
use sirah_c.Prelude.{
  ℕ, zero, suc, ◌+◌, ◌-◌, ◌*◌, Bool, true, false, not, Option, none, some, ◌>>=◌, List, [], ◌∷◌,
  ◌++◌, String, str_eq, ltb, leb, ◌==◌, if◌then◌else◌, u32, length, cons_to,
}
use sirah_c.Ipam.{Pool, Node, Manager}
use sirah_c.Ipam.Bytes.{htonl, ntohl}

-- The doubling of an array that is full. The capacity on record is doubled before `realloc` answers.
-- The flag is false where the operation gives up.
unfoldable pub grow : Bool → Pool → Pool × Bool
grow reallocated p =
    if leb p.ip_capacity (length p.allocated_ips)
    then (if reallocated
        then (
          record p { ip_capacity = u32 (p.ip_capacity * 2); room = u32 (p.ip_capacity * 2) },
          true,
        )
        else (record p { ip_capacity = u32 (p.ip_capacity * 2) }, false))
    else (p, true)

-- A write behind the end of the array is an invalid access.
unfoldable pub push : Pool → ℕ → Option Pool
push p ip =
    if ltb (length p.allocated_ips) p.room
    then some (record p { allocated_ips = p.allocated_ips ++ ip ∷ [] })
    else none

unfoldable pub is_allocated : ℕ → List ℕ → Bool
is_allocated ip [] = false
is_allocated ip (x ∷ xs) = if x == ip then true else is_allocated ip xs

-- The loop over the addresses, with `rounds` of them left.
unfoldable pub scan : ℕ → ℕ → List ℕ → Option ℕ
unfolding is_allocated htonl
scan zero ip taken = none
scan (suc rounds) ip taken = elim (is_allocated (htonl ip) taken) [
  | true ↦ scan rounds (ip + 1) taken
  | false ↦ some (htonl ip)
]

abbrev pub first_host : ℕ → ℕ
first_host cidr_start = u32 (ntohl cidr_start + 2)

abbrev pub last_host : ℕ → ℕ
last_host cidr_end = u32 (ntohl cidr_end + 4294967296 - 1)

-- Only pod addresses count as taken. (A range that ends at 2^32 - 1 and is all taken would make the
-- loop of the code endless.)
unfoldable pub get_next_available_ip : Manager → ℕ → ℕ → Option ℕ
unfolding scan ntohl
get_next_available_ip m cidr_start cidr_end =
    scan (last_host cidr_end + 1 - first_host cidr_start) (first_host cidr_start)
      m.pod_ips.allocated_ips

unfoldable pub find_node : String → List Node → Option Node
find_node name [] = none
find_node name (n ∷ ns) = if str_eq n.node_name name then some n else find_node name ns

-- The nodes with the first one of the name replaced.
unfoldable pub put_node : String → Node → List Node → List Node
put_node name n' [] = []
put_node name n' (n ∷ ns) = if str_eq n.node_name name then n' ∷ ns else n ∷ put_node name n' ns

unfoldable pub new_node : Manager → String → Node
unfolding htonl ntohl
new_node m name =
    let node_ip : ℕ = u32 (ntohl m.cluster_start + u32 (length m.nodes * 256)) in
    record {
      node_name = name;
      node_cidr_start = htonl node_ip;
      node_cidr_end = htonl (u32 (node_ip + 255));
      pool = record { allocated_ips = []; ip_capacity = 256; room = 256 };
    }

abbrev pub grow_nodes : Bool → Manager → Manager × Bool
grow_nodes reallocated m =
    if leb m.node_capacity (length m.nodes)
    then (if reallocated
        then (
          record m {
            node_capacity = u32 (m.node_capacity * 2);
            node_room = u32 (m.node_capacity * 2);
          },
          true,
        )
        else (record m { node_capacity = u32 (m.node_capacity * 2) }, false))
    else (m, true)

-- The new node's fields are written before the array of its addresses is allocated. The answer is the
-- start of the node's /24 network.
unfoldable pub register_node : Manager → String → Bool → Bool → Option (Manager × Option ℕ)
unfolding find_node new_node
register_node m name reallocated allocated = elim (find_node name m.nodes) [
  | some n ↦ some (m, some n.node_cidr_start)
  | none ↦
      let (m', going) = grow_nodes reallocated m in
      if not going
      then some (m', none)
      else (if not (ltb (length m'.nodes) m'.node_room)
          then none
          else (if allocated
              then some (
                record m' { nodes = m'.nodes ++ new_node m name ∷ [] },
                some (new_node m name).node_cidr_start,
              )
              else some (m', none)))
]

unfoldable pub remove_node : String → List Node → Option (List Node)
remove_node name [] = none
remove_node name (n ∷ ns) =
    let rest = cons_to n (remove_node name ns) in if str_eq n.node_name name then some ns else rest

-- The pool of all pod addresses is left as it is.
unfoldable pub unregister_node : Manager → String → Manager × Bool
unfolding remove_node
unregister_node m name = elim (remove_node name m.nodes) [
  | none ↦ (m, false)
  | some ns ↦ (record m { nodes = ns }, true)
]

-- The end of `allocate_pod_ip`: the node has its address, and the pool of all pods gets it.
abbrev pub add_to_pods : Manager → ℕ → Bool → Option (Manager × Option ℕ)
add_to_pods m ip reallocated =
    let (pods, going) = grow reallocated m.pod_ips in
    if going
    then (do pods' ← push pods ip; some (record m { pod_ips = pods' }, some ip))
    else some (record m { pod_ips = pods }, none)

abbrev pub with_pool : Manager → String → Node → Pool → Manager
with_pool m name n pool = record m { nodes = put_node name (record n { pool = pool }) m.nodes }

abbrev pub add_to_node : Manager → String → Node → ℕ → Bool → Bool → Option (Manager × Option ℕ)
add_to_node m name n ip node_reallocated reallocated =
    let (pool, going) = grow node_reallocated n.pool in
    if going
    then (do pool' ← push pool ip; add_to_pods (with_pool m name n pool') ip reallocated)
    else some (with_pool m name n pool, none)

unfoldable pub allocate_pod_ip : Manager → String → Bool → Bool → Option (Manager × Option ℕ)
unfolding find_node put_node get_next_available_ip grow push
allocate_pod_ip m name node_reallocated reallocated = elim (find_node name m.nodes) [
  | none ↦ some (m, none)
  | some n ↦ elim (get_next_available_ip m n.node_cidr_start n.node_cidr_end) [
    | none ↦ some (m, none)
    | some ip ↦ add_to_node m name n ip node_reallocated reallocated
  ]
]

-- The first occurrence goes.
unfoldable pub remove_ip : ℕ → List ℕ → List ℕ
remove_ip ip [] = []
remove_ip ip (x ∷ xs) = if x == ip then xs else x ∷ remove_ip ip xs

-- The first node that holds the address loses it.
unfoldable pub release_from : ℕ → List Node → List Node × Bool
unfolding is_allocated remove_ip
release_from ip [] = ([], false)
release_from ip (n ∷ ns) =
    let (ns', found) = release_from ip ns in
    if is_allocated ip n.pool.allocated_ips
    then (
      record n { pool = record n.pool { allocated_ips = remove_ip ip n.pool.allocated_ips } } ∷ ns,
      true,
    )
    else (n ∷ ns', found)

unfoldable pub release_pod_ip : Manager → ℕ → Manager × Bool
unfolding release_from remove_ip
release_pod_ip m ip =
    let (ns, found) = release_from ip m.nodes in
    (
      record m {
        nodes = ns;
        pod_ips = record m.pod_ips { allocated_ips = remove_ip ip m.pod_ips.allocated_ips };
      },
      found,
    )

unfoldable pub allocate_service_ip : Manager → Bool → Option (Manager × Option ℕ)
unfolding get_next_available_ip grow push
allocate_service_ip m reallocated = elim (get_next_available_ip m m.service_start m.service_end) [
  | none ↦ some (m, none)
  | some ip ↦
      let (services, going) = grow reallocated m.service_ips in
      if going
      then (do services' ← push services ip; some (record m { service_ips = services' }, some ip))
      else some (record m { service_ips = services }, none)
]

unfoldable pub release_service_ip : Manager → ℕ → Manager × Bool
unfolding is_allocated remove_ip
release_service_ip m ip =
    if is_allocated ip m.service_ips.allocated_ips
    then (
      record m {
        service_ips = record m.service_ips {
          allocated_ips = remove_ip ip m.service_ips.allocated_ips;
        };
      },
      true,
    )
    else (m, false)
