-- ===== src/Ipam/Bounds.antt =====
-- The pools and the node list of internal/ipam/ipam_manager.c under its operations: sizes, and what
-- holds of every node.
use sirah_c.Prelude.{
  ℕ, suc, ◌+◌, ◌*◌, ◌≤◌, ◌<◌, ◌≡◌, refl, subst, ap, ◌⊎◌, inl, inr, some, List, [], ◌∷◌, ◌++◌,
  String, str_eq, ◌==◌, if◌then◌else◌, arith, length, Bool-cases, Option-cases, All, length-append,
}
use sirah_c.Ipam.{Pool, Node, Manager}
use sirah_c.Ipam.Pools.{
  is_allocated, put_node, remove_node, remove_ip, release_from, new_node, last_host, first_host,
}
use sirah_c.Ipam.Allocation.{
  IsSized, Allocated, get_next_available_ip-FirstFree, FirstFree, pushed, pushed-allocated_ips,
  pushed_sizes, pushed_exact,
}
use sirah_c.Ipam.Sharing.{count, count-append, count-one, count-is_allocated}

-- A pool after at most `k` allocations.
pub record IsBounded (k : ℕ) (p : Pool) : Type 0 where
  pub positive : 0 < p.ip_capacity
  pub exact : p.room ≡ p.ip_capacity
  pub within : length p.allocated_ips ≤ p.ip_capacity
  pub few : length p.allocated_ips ≤ k
  pub small : p.ip_capacity ≤ 256 + 2 * k

-- `2 ^ 29` calls keep every capacity a `uint32_t` after a doubling.
abbrev pub max_calls : ℕ
max_calls = 536870912

pub IsBounded-IsSized : (k : ℕ) (p : Pool) → k < max_calls → IsBounded k p → IsSized p
IsBounded-IsSized k p few h = record {
  positive = h.positive;
  exact = h.exact;
  within = h.within;
  word = omega (arith, h.small);
}

pub IsBounded-suc : (k : ℕ) (p : Pool) → IsBounded k p → IsBounded (suc k) p
IsBounded-suc k p h = omega arith

pub pushed-IsBounded :
    (k : ℕ) (p : Pool) (ip : ℕ) → k < max_calls → IsBounded k p → IsBounded (suc k) (pushed p ip)
pushed-IsBounded k p ip few h =
    let long : length (pushed p ip).allocated_ips ≡ length p.allocated_ips + 1 =
      rw (pushed-allocated_ips p ip) (length-append p.allocated_ips (ip ∷ [])) in
    record {
      positive = ground (arith, h, pushed_sizes p ip);
      exact = pushed_exact p ip (IsBounded-IsSized k p few h);
      within = ground (arith, h, pushed_sizes p ip, long);
      few = omega (arith, h.few, long);
      small = ground (arith, h, pushed_sizes p ip);
    }

pub All-map :
    (P Q : Node → Type 0) (ns : List Node) → ((n : Node) → P n → Q n) → All P ns → All Q ns
All-map P Q [] f h = tt
All-map P Q (n ∷ ns) f h = (f n h.0, All-map P Q ns f h.1)

pub All-put_node :
    (P : Node → Type 0) (name : String) (n' : Node) (ns : List Node)
    → P n'
    → All P ns
    → All P (put_node name n' ns)
unfolding put_node
All-put_node P name n' [] hn h = tt
All-put_node P name n' (n ∷ ns) hn h = elim (Bool-cases (str_eq n.node_name name)) [
  | inl hit ↦ rw hit (hn, h.1)
  | inr miss ↦ rw miss (h.0, All-put_node P name n' ns hn h.1)
]

pub length-put_node :
    (name : String) (n' : Node) (ns : List Node) → length (put_node name n' ns) ≡ length ns
unfolding put_node
length-put_node name n' [] = refl
length-put_node name n' (n ∷ ns) = ground (arith, length-put_node name n' ns)

pub count-pushed :
    (p : Pool) (ip x : ℕ)
    → count x (pushed p ip).allocated_ips ≡ count x p.allocated_ips + (if ip == x then 1 else 0)
count-pushed p ip x =
    rw (pushed-allocated_ips p ip, count-append x p.allocated_ips (ip ∷ []), count-one x ip)

pub FirstFree-free :
    (first last : ℕ) (taken : List ℕ) (ip : ℕ)
    → FirstFree first last taken (some ip)
    → count ip taken ≡ 0
FirstFree-free first last taken ip (host, _, _, _, free, _) =
    ground (arith, count-is_allocated ip taken)

-- The address that an allocation gives was in no pod's hands.
pub free_address :
    (m : Manager) (name : String) (ip : ℕ) (m' : Manager)
    → Allocated m name ip m'
    → count ip m.pod_ips.allocated_ips ≡ 0
free_address m name ip m' a =
    FirstFree-free (first_host a.node.node_cidr_start) (last_host a.node.node_cidr_end) _ ip (
      subst
        (FirstFree (first_host a.node.node_cidr_start) (last_host a.node.node_cidr_end)
          m.pod_ips.allocated_ips)
        a.searched (get_next_available_ip-FirstFree m a.node.node_cidr_start a.node.node_cidr_end))

pub length-remove_ip : (ip : ℕ) (xs : List ℕ) → length (remove_ip ip xs) ≤ length xs
unfolding remove_ip
length-remove_ip ip [] = omega arith
length-remove_ip ip (x ∷ xs) = ground (arith, length-remove_ip ip xs)

pub remove_ip-IsBounded :
    (k ip : ℕ) (p : Pool)
    → IsBounded k p
    → IsBounded k (record p { allocated_ips = remove_ip ip p.allocated_ips })
remove_ip-IsBounded k ip p h = omega (arith, h, length-remove_ip ip p.allocated_ips)

pub All-release_from :
    (k ip : ℕ) (ns : List Node)
    → All (λ n. IsBounded k n.pool) ns
    → All (λ n. IsBounded k n.pool) (release_from ip ns).0
unfolding release_from
All-release_from k ip [] h = tt
All-release_from k ip (n ∷ ns) h = elim (Bool-cases (is_allocated ip n.pool.allocated_ips)) [
  | inl held_here ↦ rw held_here (remove_ip-IsBounded k ip n.pool h.0, h.1)
  | inr not_here ↦ rw not_here (h.0, All-release_from k ip ns h.1)
]

pub length-release_from : (ip : ℕ) (ns : List Node) → length (release_from ip ns).0 ≡ length ns
unfolding release_from
length-release_from ip [] = refl
length-release_from ip (n ∷ ns) = ground (arith, length-release_from ip ns)

pub remove_node-cases :
    (name : String) (n : Node) (ns ns' : List Node)
    → remove_node name (n ∷ ns) ≡ some ns'
    → (ns ≡ ns') ⊎ ((ms : List Node) × (remove_node name ns ≡ some ms) × (ns' ≡ n ∷ ms))
unfolding remove_node
remove_node-cases name n ns ns' e = elim (Bool-cases (str_eq n.node_name name)) [
  | inl hit ↦ inl (ground arith)
  | inr miss ↦ elim (Option-cases (remove_node name ns)) [
    | inl nowhere ↦ absurd (ground arith)
    | inr (ms, there) ↦ inr (ms, there, ground arith)
  ]
]

pub All-remove_node :
    (P : Node → Type 0) (name : String) (ns ns' : List Node)
    → remove_node name ns ≡ some ns'
    → All P ns
    → All P ns'
unfolding remove_node
All-remove_node P name [] ns' e h = absurd (cc)
All-remove_node P name (n ∷ ns) ns' e h = elim (remove_node-cases name n ns ns' e) [
  | inl hit ↦ subst (All P) hit h.1
  | inr (ms, there, e') ↦ rw e' (h.0, All-remove_node P name ns ms there h.1)
]

pub length-remove_node :
    (name : String) (ns ns' : List Node) → remove_node name ns ≡ some ns' → length ns' ≤ length ns
unfolding remove_node
length-remove_node name [] ns' e = absurd (cc)
length-remove_node name (n ∷ ns) ns' e = elim (remove_node-cases name n ns ns' e) [
  | inl hit ↦ omega (arith, ap (λ (l : List Node). length l) hit)
  | inr (ms, there, e') ↦ rw e' (omega (arith, length-remove_node name ns ms there))
]

pub new_node-IsBounded : (k : ℕ) (m : Manager) (name : String) → IsBounded k (new_node m name).pool
unfolding new_node
new_node-IsBounded k m name = omega arith

pub All-append :
    (P : Node → Type 0) (ns : List Node) (n : Node) → All P ns → P n → All P (ns ++ n ∷ [])
All-append P [] n h hn = (hn, tt)
All-append P (m ∷ ns) n h hn = (h.0, All-append P ns n h.1 hn)
