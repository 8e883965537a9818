-- ===== src/Ipam/Allocation.antt =====
-- The search for a free address in internal/ipam/ipam_manager.c, and where an allocated one goes.
use sirah_c.Prelude.{
  ℕ, zero, suc, ◌+◌, ◌-◌, ◌*◌, ◌≤◌, ◌<◌, ◌≡◌, refl, ◌⊎◌, inl, inr, true, false, Option, none, some,
  List, [], ◌∷◌, ◌++◌, String, str_eq, leb, if◌then◌else◌, u32, arith, length, Bool-cases,
  Option-cases, All, subst,
}
use sirah_c.Ipam.{Pool, Node, Manager}
use sirah_c.Ipam.Bytes.{htonl}
use sirah_c.Ipam.Pools.{
  grow, push, is_allocated, scan, first_host, last_host, get_next_available_ip, find_node,
  with_pool, allocate_pod_ip,
}

-- What a search through `rounds` addresses from `ip` on may answer.
Searched : ℕ → ℕ → List ℕ → Option ℕ → Type 0
Searched rounds ip taken none = (j : ℕ) → j < rounds → is_allocated (htonl (ip + j)) taken ≡ true
Searched rounds ip taken (some a) =
    (k : ℕ) × (k < rounds)
    × (a ≡ htonl (ip + k))
    × (is_allocated a taken ≡ false)
    × ((j : ℕ) → j < k → is_allocated (htonl (ip + j)) taken ≡ true)

taken_from :
    (ip rounds : ℕ) (taken : List ℕ)
    → is_allocated (htonl ip) taken ≡ true
    → ((j : ℕ) → j < rounds → is_allocated (htonl (ip + 1 + j)) taken ≡ true)
    → (j : ℕ) → j < suc rounds
    → is_allocated (htonl (ip + j)) taken ≡ true
taken_from ip rounds taken first later zero h = let e : ip + 0 ≡ ip = omega arith in rw e first
taken_from ip rounds taken first later (suc j) h =
    let e : ip + suc j ≡ ip + 1 + j = omega arith in rw e (later j (omega arith))

Searched-suc :
    (rounds ip : ℕ) (taken : List ℕ) (r : Option ℕ)
    → is_allocated (htonl ip) taken ≡ true
    → Searched rounds (ip + 1) taken r
    → Searched (suc rounds) ip taken r
unfolding Searched
Searched-suc rounds ip taken none first h = taken_from ip rounds taken first h
Searched-suc rounds ip taken (some a) first (k, lt, e, free, below) =
    let shift : ip + 1 + k ≡ ip + suc k = omega arith in
    (suc k, omega arith, rw (← shift) e, free, taken_from ip k taken first below)

scan-Searched : (rounds ip : ℕ) (taken : List ℕ) → Searched rounds ip taken (scan rounds ip taken)
unfolding Searched scan
scan-Searched zero ip taken = λ j h. absurd (omega arith)
scan-Searched (suc rounds) ip taken = elim (Bool-cases (is_allocated (htonl ip) taken)) [
  | inl held ↦
      rw (held, scan)
        (Searched-suc rounds ip taken (scan rounds (ip + 1) taken) held
          (scan-Searched rounds (ip + 1) taken))
  | inr free ↦
      let e : ip + 0 ≡ ip = omega arith in
      rw (free, scan) (0, omega arith, rw e, free, λ j h. absurd (omega arith))
]

-- The answer is the lowest address of the range that no pod has, or none if pods have them all.
abbrev pub FirstFree : ℕ → ℕ → List ℕ → Option ℕ → Type 0
FirstFree first last taken none =
    (host : ℕ) → first ≤ host → host ≤ last → is_allocated (htonl host) taken ≡ true
FirstFree first last taken (some ip) =
    (host : ℕ) × (first ≤ host)
    × (host ≤ last)
    × (ip ≡ htonl host)
    × (is_allocated ip taken ≡ false)
    × ((lower : ℕ) → first ≤ lower → lower < host → is_allocated (htonl lower) taken ≡ true)

Searched-FirstFree :
    (first last : ℕ) (taken : List ℕ) (r : Option ℕ)
    → Searched (last + 1 - first) first taken r
    → FirstFree first last taken r
unfolding Searched
Searched-FirstFree first last taken none h = λ host low high.
    let e : first + (host - first) ≡ host = omega arith in rw e at (h (host - first) (omega arith))
Searched-FirstFree first last taken (some ip) (k, lt, e, free, below) = (
  first + k,
  omega arith,
  omega arith,
  e,
  free,
  λ lower low high.
      let e' : first + (lower - first) ≡ lower = omega arith in
      rw e' at (below (lower - first) (omega arith)),
)

-- The search answers the lowest host address of a network that no pod has, from the second after its
-- start to the last before its end; where it answers none, pods have them all.
pub get_next_available_ip-FirstFree :
    (m : Manager) (cidr_start cidr_end : ℕ)
    → FirstFree
        (first_host cidr_start)
        (last_host cidr_end)
        m.pod_ips.allocated_ips
        (get_next_available_ip m cidr_start cidr_end)
unfolding get_next_available_ip
get_next_available_ip-FirstFree m cidr_start cidr_end =
    Searched-FirstFree (first_host cidr_start) (last_host cidr_end) m.pod_ips.allocated_ips _
      (scan-Searched _ (first_host cidr_start) m.pod_ips.allocated_ips)

-- A pool as it is while no allocation has failed: its array is as large as the capacity on record.
pub record IsSized (p : Pool) : Type 0 where
  pub positive : 0 < p.ip_capacity
  pub exact : p.room ≡ p.ip_capacity
  pub within : length p.allocated_ips ≤ p.ip_capacity
  pub word : p.ip_capacity < 2147483648

-- The pool after a growth that succeeds and a write.
pub pushed : Pool → ℕ → Pool
unfolding grow
pushed p ip = record (grow true p).0 { allocated_ips = p.allocated_ips ++ ip ∷ [] }

pub pushed-allocated_ips :
    (p : Pool) (ip : ℕ) → (pushed p ip).allocated_ips ≡ p.allocated_ips ++ ip ∷ []
unfolding pushed
pushed-allocated_ips p ip = refl

pub pushed_sizes :
    (p : Pool) (ip : ℕ)
    → (pushed p ip).ip_capacity ≡ (
        if leb p.ip_capacity (length p.allocated_ips)
        then u32 (p.ip_capacity * 2)
        else p.ip_capacity)
unfolding pushed
pushed_sizes p ip = ground arith

pub pushed_exact : (p : Pool) (ip : ℕ) → IsSized p → (pushed p ip).room ≡ (pushed p ip).ip_capacity
unfolding pushed
pushed_exact p ip h = ground (arith, h)

pub grow-push :
    (p : Pool) (ip : ℕ)
    → IsSized p
    → ((grow true p).1 ≡ true) × (push (grow true p).0 ip ≡ some (pushed p ip))
unfolding grow push pushed
grow-push p ip h = ground (arith, h)

pub find_node-All :
    (P : Node → Type 0) (name : String) (ns : List Node) (n : Node)
    → find_node name ns ≡ some n
    → All P ns
    → P n
unfolding find_node
find_node-All P name [] n e h = absurd (cc)
find_node-All P name (m ∷ ns) n e h = elim (Bool-cases (str_eq m.node_name name)) [
  | inl hit ↦ subst P (ground arith) h.0
  | inr miss ↦ find_node-All P name ns n (ground arith) h.1
]

-- What an allocation that gives an address has done.
pub record Allocated (m : Manager) (name : String) (ip : ℕ) (m' : Manager) : Type 0 where
  pub node : Node
  pub found : find_node name m.nodes ≡ some node
  pub searched : get_next_available_ip m node.node_cidr_start node.node_cidr_end ≡ some ip
  pub result :
      m' ≡ record (with_pool m name node (pushed node.pool ip)) { pod_ips = pushed m.pod_ips ip }

-- With arrays of their capacity and no allocation failing, a pod address is given to a known node that
-- has a free one, and otherwise nothing changes; no write misses its array.
pub allocate_pod_ip-cases :
    (m : Manager) (name : String)
    → All (λ n. IsSized n.pool) m.nodes
    → IsSized m.pod_ips
    → (allocate_pod_ip m name true true ≡ some (m, none))
      ⊎ ((ip : ℕ) × (m' : Manager) × (allocate_pod_ip m name true true ≡ some (m', some ip))
          × Allocated m name ip m')
unfolding allocate_pod_ip
allocate_pod_ip-cases m name sized pods = elim (Option-cases (find_node name m.nodes)) [
  | inl unknown ↦ inl (rw (unknown, allocate_pod_ip))
  | inr (n, known) ↦
      elim (Option-cases (get_next_available_ip m n.node_cidr_start n.node_cidr_end)) [
        | inl full ↦ inl (rw (known, full, allocate_pod_ip))
        | inr (ip, free) ↦
            let (go₁, push₁) =
              grow-push n.pool ip
                (find_node-All (λ k. IsSized k.pool) name m.nodes n known sized) in
            let (go₂, push₂) = grow-push m.pod_ips ip pods in
            inr (
              ip,
              _,
              rw (known, free, go₁, push₁, go₂, push₂, allocate_pod_ip),
              record { node = n; found = known; searched = free; result = refl },
            )
      ]
]
