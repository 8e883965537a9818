-- ===== src/Ipam/Given.antt =====
-- What internal/ipam/ipam_manager.c does to any manager, whatever `realloc` answers, when it gives a pod an
-- address, and when it takes the address back.
use sirah_c.Prelude.{
  ℕ, ◌+◌, ◌≡◌, refl, subst, ap, ◌∙◌, ◌==◌, if◌then◌else◌, if_elim, inl, inr, Bool, true, Option,
  none, some, ◌>>=◌, [], ◌∷◌, ◌++◌, String, arith, Option-cases,
}
use sirah_c.Ipam.{Pool, Node, Manager}
use sirah_c.Ipam.Pools.{
  grow, push, find_node, first_host, last_host, get_next_available_ip, add_to_pods, with_pool,
  add_to_node, allocate_pod_ip, release_pod_ip,
}
use sirah_c.Ipam.Allocation.{FirstFree, get_next_available_ip-FirstFree}
use sirah_c.Ipam.Sharing.{
  count, held, count-append, count-one, held-put_node, held-release_from, count-remove_ip,
  release_from_found,
}
use sirah_c.Ipam.Bounds.{FirstFree-free}

-- A pool with one more address, and any capacity.
abbrev Added : Pool → ℕ → Pool → Type 0
Added p ip q = q.allocated_ips ≡ p.allocated_ips ++ ip ∷ []

push-Added : (b : Bool) (p q : Pool) (ip : ℕ) → push (grow b p).0 ip ≡ some q → Added p ip q
unfolding push grow
push-Added b p q ip e = ground arith

-- What holds of the outcome of an operation that may give an address, if it gives one.
abbrev Gives : (Manager → ℕ → Type 0) → Option (Manager × Option ℕ) → Type 0
Gives P none = Unit
Gives P (some (m, none)) = Unit
Gives P (some (m, some ip)) = P m ip

bind-Gives :
    (P : Manager → ℕ → Type 0) (o : Option Pool) (f : Pool → Option (Manager × Option ℕ))
    → ((q : Pool) → o ≡ some q → Gives P (f q))
    → Gives P (o >>= f)
bind-Gives P none f h = tt
bind-Gives P (some q) f h = h q refl

-- The pool of all pods has one more address.
abbrev AddedTo : Manager → ℕ → Manager → ℕ → Type 0
AddedTo m ip m' j =
    (ip ≡ j) × (pods : Pool) × Added m.pod_ips ip pods × (record m { pod_ips = pods } ≡ m')

add_to_pods-Gives : (m : Manager) (ip : ℕ) (b : Bool) → Gives (AddedTo m ip) (add_to_pods m ip b)
add_to_pods-Gives m ip b =
    if_elim (Gives (AddedTo m ip)) (grow b m.pod_ips).1
      (λ going.
        bind-Gives (AddedTo m ip) (push (grow b m.pod_ips).0 ip)
          (λ q. some (record m { pod_ips = q }, some ip))
          (λ q written. (refl, q, push-Added b m.pod_ips q ip written, refl)))
      (λ stopped. tt)

-- What a manager becomes when an address goes to a pod of a node.
record Given (m : Manager) (name : String) (m' : Manager) (ip : ℕ) : Type 0 where
  node : Node
  found : find_node name m.nodes ≡ some node
  searched : get_next_available_ip m node.node_cidr_start node.node_cidr_end ≡ some ip
  pool : Pool
  pool_added : Added node.pool ip pool
  pods : Pool
  pods_added : Added m.pod_ips ip pods
  result : record (with_pool m name node pool) { pod_ips = pods } ≡ m'

Gives-map :
    (P Q : Manager → ℕ → Type 0) (o : Option (Manager × Option ℕ))
    → ((m : Manager) (ip : ℕ) → P m ip → Q m ip)
    → Gives P o
    → Gives Q o
Gives-map P Q none f h = tt
Gives-map P Q (some (m, none)) f h = tt
Gives-map P Q (some (m, some ip)) f h = f m ip h

add_to_node-Gives :
    (m : Manager) (name : String) (n : Node) (ip : ℕ) (b b' : Bool)
    → find_node name m.nodes ≡ some n
    → get_next_available_ip m n.node_cidr_start n.node_cidr_end ≡ some ip
    → Gives (Given m name) (add_to_node m name n ip b b')
add_to_node-Gives m name n ip b b' known free =
    if_elim (Gives (Given m name)) (grow b n.pool).1
      (λ going.
        bind-Gives (Given m name) (push (grow b n.pool).0 ip)
          (λ q. add_to_pods (with_pool m name n q) ip b')
          (λ q written.
            Gives-map (AddedTo (with_pool m name n q) ip) (Given m name)
              (add_to_pods (with_pool m name n q) ip b')
              (λ m' j (same, pods, added, result). record {
                node = n;
                found = known;
                searched = free ∙ ap some same;
                pool = q;
                pool_added = subst (λ x. Added n.pool x q) same (push-Added b n.pool q ip written);
                pods = pods;
                pods_added = subst (λ x. Added m.pod_ips x pods) same added;
                result = result;
              })
              (add_to_pods-Gives (with_pool m name n q) ip b')))
      (λ stopped. tt)

allocate_pod_ip-Gives :
    (m : Manager) (name : String) (b b' : Bool) → Gives (Given m name) (allocate_pod_ip m name b b')
unfolding allocate_pod_ip
allocate_pod_ip-Gives m name b b' = elim (Option-cases (find_node name m.nodes)) [
  | inl unknown ↦ rw (unknown, allocate_pod_ip) tt
  | inr (n, known) ↦
      elim (Option-cases (get_next_available_ip m n.node_cidr_start n.node_cidr_end)) [
        | inl full ↦ rw (known, full, allocate_pod_ip) tt
        | inr (ip, free) ↦
            rw (known, free, allocate_pod_ip) (add_to_node-Gives m name n ip b b' known free)
      ]
]

given :
    (m m' : Manager) (name : String) (ip : ℕ) (b b' : Bool)
    → allocate_pod_ip m name b b' ≡ some (m', some ip)
    → Given m name m' ip
given m m' name ip b b' e = subst (Gives (Given m name)) e (allocate_pod_ip-Gives m name b b')

-- One more of an address.
abbrev one_of : ℕ → ℕ → ℕ
one_of ip x = if ip == x then 1 else 0

count-Added :
    (p q : Pool) (ip x : ℕ)
    → Added p ip q
    → count x q.allocated_ips ≡ count x p.allocated_ips + one_of ip x
count-Added p q ip x a = rw (a, count-append x p.allocated_ips (ip ∷ []), count-one x ip) refl

held-Given :
    (m m' : Manager) (name : String) (ip x : ℕ)
    → Given m name m' ip
    → (held x m'.nodes ≡ held x m.nodes + one_of ip x)
      × (count x m'.pod_ips.allocated_ips ≡ count x m.pod_ips.allocated_ips + one_of ip x)
held-Given m m' name ip x g =
    subst
      (λ n.
        (held x n.nodes ≡ held x m.nodes + one_of ip x)
        × (count x n.pod_ips.allocated_ips ≡ count x m.pod_ips.allocated_ips + one_of ip x))
      g.result
      (
        omega (
          arith,
          held-put_node x name g.node (record g.node { pool = g.pool }) m.nodes g.found,
          count-Added g.node.pool g.pool ip x g.pool_added,
        ),
        count-Added m.pod_ips g.pods ip x g.pods_added,
      )

-- Whatever `realloc` answers, an address that a pod of any manager is given is the lowest one of the host
-- range of its node, the first node of the name, that the pool of all pods does not have. That pool has
-- the address once afterwards, the arrays of the nodes have it once more than before, and all have every
-- other address as often as before.
pub allocate_pod_ip_fresh :
    (m m' : Manager) (name : String) (ip : ℕ) (node_reallocated reallocated : Bool)
    → allocate_pod_ip m name node_reallocated reallocated ≡ some (m', some ip)
    → ((n : Node) × (find_node name m.nodes ≡ some n)
        × FirstFree
            (first_host n.node_cidr_start)
            (last_host n.node_cidr_end)
            m.pod_ips.allocated_ips
            (some ip))
      × (count ip m'.pod_ips.allocated_ips ≡ 1)
      × ((x : ℕ)
          → (held x m'.nodes ≡ held x m.nodes + (if ip == x then 1 else 0))
            × (count x m'.pod_ips.allocated_ips
                ≡ count x m.pod_ips.allocated_ips + (if ip == x then 1 else 0)))
allocate_pod_ip_fresh m m' name ip b b' e =
    let g = given m m' name ip b b' e in
    let first = first_host g.node.node_cidr_start in
    let last = last_host g.node.node_cidr_end in
    let free : FirstFree first last m.pod_ips.allocated_ips (some ip) =
      subst (FirstFree first last m.pod_ips.allocated_ips) g.searched
        (get_next_available_ip-FirstFree m g.node.node_cidr_start g.node.node_cidr_end) in
    (
      (g.node, g.found, free),
      ground (
        arith,
        FirstFree-free first last m.pod_ips.allocated_ips ip free,
        (held-Given m m' name ip ip g).1,
      ),
      λ x. held-Given m m' name ip x g,
    )

-- Whatever `realloc` answers, releasing an address right after a pod of any manager is given it is reported
-- as done, and leaves every address as often in the arrays of the nodes and in the pool of all pods as
-- before the allocation.
pub release_pod_ip-allocate_pod_ip :
    (m m' : Manager) (name : String) (ip : ℕ) (node_reallocated reallocated : Bool)
    → allocate_pod_ip m name node_reallocated reallocated ≡ some (m', some ip)
    → ((release_pod_ip m' ip).1 ≡ true)
      × ((x : ℕ)
          → (held x (release_pod_ip m' ip).0.nodes ≡ held x m.nodes)
            × (count x (release_pod_ip m' ip).0.pod_ips.allocated_ips
                ≡ count x m.pod_ips.allocated_ips))
unfolding release_pod_ip
release_pod_ip-allocate_pod_ip m m' name ip b b' e =
    let g = given m m' name ip b b' e in
    (
      release_from_found ip m'.nodes (ground (arith, held-Given m m' name ip ip g)),
      λ x. (
        omega (arith, (held-Given m m' name ip x g).0, held-release_from x ip m'.nodes),
        omega
            (arith, (held-Given m m' name ip x g).1, count-remove_ip x ip m'.pod_ips.allocated_ips),
      ),
    )
