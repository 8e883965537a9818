-- ===== src/Ipam/Invariant.antt =====
-- What holds of a manager of internal/ipam/ipam_manager.c between two calls while no allocation fails.
use sirah_c.Prelude.{
  ℕ, suc, ◌+◌, ◌*◌, ◌≤◌, ◌<◌, ◌≡◌, sym, subst, ap, inl, inr, true, Option, none, some, List, [],
  ◌∷◌, ◌++◌, String, ltb, ◌==◌, if◌then◌else◌, arith, length, Bool-cases, lt→ltb, Option-cases, All,
  length-append,
}
use sirah_c.Ipam.{Node, Manager}
use sirah_c.Ipam.Pools.{
  is_allocated, find_node, remove_node, allocate_pod_ip, release_pod_ip, register_node,
  unregister_node, grow_nodes, allocate_service_ip, release_service_ip, get_next_available_ip,
  new_node,
}
use sirah_c.Ipam.Allocation.{
  IsSized, Allocated, allocate_pod_ip-cases, pushed, grow-push, find_node-All,
}
use sirah_c.Ipam.Sharing.{
  held-new_node, count, held, count-remove_ip, held-put_node, held-remove_node, held-append,
  held-release_from,
}
use sirah_c.Ipam.Bounds.{
  IsBounded, max_calls, IsBounded-IsSized, IsBounded-suc, pushed-IsBounded, new_node-IsBounded,
  All-append, All-map, All-put_node, length-put_node, count-pushed, free_address,
  remove_ip-IsBounded, All-release_from, length-release_from, All-remove_node, length-remove_node,
}

-- A manager after `k` calls.
pub record IsSound (k : ℕ) (m : Manager) : Type 0 where
  pub pooled : (ip : ℕ) → held ip m.nodes ≤ count ip m.pod_ips.allocated_ips
  pub single : (ip : ℕ) → count ip m.pod_ips.allocated_ips ≤ 1
  pub node_pools : All (λ n. IsBounded k n.pool) m.nodes
  pub pod_pool : IsBounded k m.pod_ips
  pub service_pool : IsBounded k m.service_ips
  pub nodes_grow : 0 < m.node_capacity
  pub nodes_exact : m.node_room ≡ m.node_capacity
  pub nodes_within : length m.nodes ≤ m.node_capacity
  pub nodes_few : length m.nodes ≤ k
  pub nodes_small : m.node_capacity ≤ 32 + 2 * k

module _ (k : ℕ) (m : Manager) (h : IsSound k m) (few : k < max_calls) where
  pub sized : All (λ n. IsSized n.pool) m.nodes
  sized = All-map _ _ m.nodes (λ n b. IsBounded-IsSized k n.pool few b) h.node_pools

  pub later_pools : All (λ n. IsBounded (suc k) n.pool) m.nodes
  later_pools = All-map _ _ m.nodes (λ n b. IsBounded-suc k n.pool b) h.node_pools

  pub IsSound-suc : IsSound (suc k) m
  IsSound-suc = record {
    pooled = h.pooled;
    single = h.single;
    node_pools = later_pools;
    pod_pool = IsBounded-suc k m.pod_ips h.pod_pool;
    service_pool = IsBounded-suc k m.service_ips h.service_pool;
    nodes_grow = h.nodes_grow;
    nodes_exact = h.nodes_exact;
    nodes_within = h.nodes_within;
    nodes_few = omega (arith, h.nodes_few);
    nodes_small = omega (arith, h.nodes_small);
  }

  pub Allocated-IsSound :
      (name : String) (ip : ℕ) (m' : Manager) → Allocated m name ip m' → IsSound (suc k) m'
  Allocated-IsSound name ip m' a =
      let one_pod : (x : ℕ)
          → count x (pushed m.pod_ips ip).allocated_ips
            ≡ count x m.pod_ips.allocated_ips + (if ip == x then 1 else 0) =
        count-pushed m.pod_ips ip in
      let node' : Node = record a.node { pool = pushed a.node.pool ip } in
      subst (IsSound (suc k)) (sym a.result) (record {
        pooled = λ x. omega (
          arith,
          held-put_node x name a.node node' m.nodes a.found,
          count-pushed a.node.pool ip x,
          one_pod x,
          h.pooled x,
        );
        single = λ x. ground (
          arith,
          one_pod x,
          h.single x,
          free_address m name ip m' a,
          ap (λ (y : ℕ). count y m.pod_ips.allocated_ips) {x = ip} {y = x},
        );
        node_pools =
            All-put_node _ name node' m.nodes
              (pushed-IsBounded k a.node.pool ip few
                (find_node-All (λ n. IsBounded k n.pool) name m.nodes a.node a.found h.node_pools))
              later_pools;
        pod_pool = pushed-IsBounded k m.pod_ips ip few h.pod_pool;
        service_pool = IsBounded-suc k m.service_ips h.service_pool;
        nodes_grow = h.nodes_grow;
        nodes_exact = h.nodes_exact;
        nodes_within = omega (arith, h.nodes_within, length-put_node name node' m.nodes);
        nodes_few = omega (arith, h.nodes_few, length-put_node name node' m.nodes);
        nodes_small = omega (arith, h.nodes_small);
      })

  -- Giving up an address.
  pub release_pod_ip-IsSound : (ip : ℕ) → IsSound (suc k) (release_pod_ip m ip).0
  unfolding release_pod_ip
  release_pod_ip-IsSound ip = record {
    pooled = λ x. omega (
      arith,
      held-release_from x ip m.nodes,
      count-remove_ip x ip m.pod_ips.allocated_ips,
      h.pooled x,
    );
    single = λ x. omega (arith, count-remove_ip x ip m.pod_ips.allocated_ips, h.single x);
    node_pools = All-release_from (suc k) ip m.nodes later_pools;
    pod_pool = remove_ip-IsBounded (suc k) ip m.pod_ips (IsBounded-suc k m.pod_ips h.pod_pool);
    service_pool = IsBounded-suc k m.service_ips h.service_pool;
    nodes_grow = h.nodes_grow;
    nodes_exact = h.nodes_exact;
    nodes_within = omega (arith, h.nodes_within, length-release_from ip m.nodes);
    nodes_few = omega (arith, h.nodes_few, length-release_from ip m.nodes);
    nodes_small = omega (arith, h.nodes_small);
  }

  pub unregister_node-IsSound : (name : String) → IsSound (suc k) (unregister_node m name).0
  unfolding unregister_node
  unregister_node-IsSound name = elim (Option-cases (remove_node name m.nodes)) [
    | inl unknown ↦ rw (unknown, unregister_node) IsSound-suc
    | inr (ns, known) ↦
        rw (known, unregister_node)
          (record {
            pooled = λ x. omega (arith, held-remove_node x name m.nodes ns known, h.pooled x);
            single = h.single;
            node_pools = All-remove_node _ name m.nodes ns known later_pools;
            pod_pool = IsBounded-suc k m.pod_ips h.pod_pool;
            service_pool = IsBounded-suc k m.service_ips h.service_pool;
            nodes_grow = h.nodes_grow;
            nodes_exact = h.nodes_exact;
            nodes_within = omega (arith, h.nodes_within, length-remove_node name m.nodes ns known);
            nodes_few = omega (arith, h.nodes_few, length-remove_node name m.nodes ns known);
            nodes_small = omega (arith, h.nodes_small);
          })
  ]

  -- Without a failing allocation the array of nodes has room for one more.
  pub grown_nodes :
      let (m', going) = grow_nodes true m in
      (going ≡ true)
      × (m'.nodes ≡ m.nodes)
      × (m'.pod_ips ≡ m.pod_ips)
      × (m'.service_ips ≡ m.service_ips)
      × (0 < m'.node_capacity)
      × (m'.node_room ≡ m'.node_capacity)
      × (length m.nodes < m'.node_capacity)
      × (m'.node_capacity ≤ 32 + 2 * suc k)
  grown_nodes =
      ground (arith, h.nodes_grow, h.nodes_exact, h.nodes_within, h.nodes_few, h.nodes_small)

  pub register_node-IsSound :
      (name : String)
      → (m' : Manager) × (cidr : ℕ) × (register_node m name true true ≡ some (m', some cidr))
        × IsSound (suc k) m'
  unfolding register_node
  register_node-IsSound name = elim (Option-cases (find_node name m.nodes)) [
    | inr (n, known) ↦ (m, n.node_cidr_start, rw (known, register_node), IsSound-suc)
    | inl unknown ↦
        let (going, same, pods, services, pos, exact, room, small) = grown_nodes in
        let g = (grow_nodes true m).0 in
        let fits : ltb (length g.nodes) g.node_room ≡ true =
          lt→ltb _ _ (omega (arith, ap (λ (l : List Node). length l) same)) in
        let long = length-append m.nodes (new_node m name ∷ []) in
        (
          record g { nodes = g.nodes ++ new_node m name ∷ [] },
          (new_node m name).node_cidr_start,
          rw (unknown, register_node) (rw going (rw fits)),
          rw (same, pods, services)
              (record {
                pooled = λ x. omega (
                  arith,
                  held-append x m.nodes (new_node m name ∷ []),
                  held-new_node x m name,
                  h.pooled x,
                );
                single = h.single;
                node_pools =
                    All-append _ m.nodes (new_node m name) later_pools
                      (new_node-IsBounded (suc k) m name);
                pod_pool = IsBounded-suc k m.pod_ips h.pod_pool;
                service_pool = IsBounded-suc k m.service_ips h.service_pool;
                nodes_grow = pos;
                nodes_exact = exact;
                nodes_within = omega (arith, long);
                nodes_few = omega (arith, long, h.nodes_few);
                nodes_small = small;
              }),
        )
  ]

  pub allocate_pod_ip-IsSound :
      (name : String)
      → (m' : Manager) × (r : Option ℕ) × (allocate_pod_ip m name true true ≡ some (m', r))
        × IsSound (suc k) m'
  allocate_pod_ip-IsSound name =
      elim (allocate_pod_ip-cases m name sized (IsBounded-IsSized k m.pod_ips few h.pod_pool)) [
        | inl refused ↦ (m, none, refused, IsSound-suc)
        | inr (ip, m', given, a) ↦ (m', some ip, given, Allocated-IsSound name ip m' a)
      ]

  pub allocate_service_ip-IsSound :
      (m' : Manager) × (r : Option ℕ) × (allocate_service_ip m true ≡ some (m', r))
      × IsSound (suc k) m'
  unfolding allocate_service_ip
  allocate_service_ip-IsSound =
      elim (Option-cases (get_next_available_ip m m.service_start m.service_end)) [
        | inl full ↦ (m, none, rw (full, allocate_service_ip), IsSound-suc)
        | inr (ip, free) ↦
            let (going, written) =
              grow-push m.service_ips ip (IsBounded-IsSized k m.service_ips few h.service_pool) in
            (
              record m { service_ips = pushed m.service_ips ip },
              some ip,
              rw (free, allocate_service_ip) (rw (going, written)),
              record {
                pooled = h.pooled;
                single = h.single;
                node_pools = later_pools;
                pod_pool = IsBounded-suc k m.pod_ips h.pod_pool;
                service_pool = pushed-IsBounded k m.service_ips ip few h.service_pool;
                nodes_grow = h.nodes_grow;
                nodes_exact = h.nodes_exact;
                nodes_within = h.nodes_within;
                nodes_few = omega (arith, h.nodes_few);
                nodes_small = omega (arith, h.nodes_small);
              },
            )
      ]

  pub release_service_ip-IsSound : (ip : ℕ) → IsSound (suc k) (release_service_ip m ip).0
  unfolding release_service_ip
  release_service_ip-IsSound ip = elim (Bool-cases (is_allocated ip m.service_ips.allocated_ips)) [
    | inr unknown ↦ rw (unknown, release_service_ip) IsSound-suc
    | inl known ↦
        rw (known, release_service_ip)
          (record {
            pooled = h.pooled;
            single = h.single;
            node_pools = later_pools;
            pod_pool = IsBounded-suc k m.pod_ips h.pod_pool;
            service_pool =
                remove_ip-IsBounded (suc k) ip m.service_ips
                  (IsBounded-suc k m.service_ips h.service_pool);
            nodes_grow = h.nodes_grow;
            nodes_exact = h.nodes_exact;
            nodes_within = h.nodes_within;
            nodes_few = omega (arith, h.nodes_few);
            nodes_small = omega (arith, h.nodes_small);
          })
  ]
