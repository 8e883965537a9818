-- ===== src/Ipam/Sharing.antt =====
-- No two pods share an address of internal/ipam/ipam_manager.c.
use sirah_c.Prelude.{
  ℕ, ◌+◌, ◌-◌, ◌≤◌, ◌<◌, ◌≡◌, refl, ap, inl, inr, true, some, List, [], ◌∷◌, ◌++◌, String, str_eq,
  ltb, ◌==◌, if◌then◌else◌, arith, Bool-cases, Option-cases,
}
use sirah_c.Ipam.{Node, Manager}
use sirah_c.Ipam.Pools.{
  is_allocated, find_node, put_node, remove_node, remove_ip, release_from, new_node,
}

-- How often an address is in an array, and in the arrays of all nodes.
unfoldable pub count : ℕ → List ℕ → ℕ
count ip [] = 0
count ip (x ∷ xs) = (if x == ip then 1 else 0) + count ip xs

unfoldable pub held : ℕ → List Node → ℕ
unfolding count
held ip [] = 0
held ip (n ∷ ns) = count ip n.pool.allocated_ips + held ip ns

pub count-append : (ip : ℕ) (xs ys : List ℕ) → count ip (xs ++ ys) ≡ count ip xs + count ip ys
unfolding count
count-append ip [] ys = omega arith
count-append ip (x ∷ xs) ys = omega (arith, count-append ip xs ys)

pub count-one : (ip x : ℕ) → count ip (x ∷ []) ≡ (if x == ip then 1 else 0)
unfolding count
count-one ip x = ground arith

pub count-is_allocated : (ip : ℕ) (xs : List ℕ) → is_allocated ip xs ≡ ltb 0 (count ip xs)
unfolding count is_allocated
count-is_allocated ip [] = refl
count-is_allocated ip (x ∷ xs) = ground (arith, count-is_allocated ip xs)

pub count-remove_ip :
    (ip x : ℕ) (xs : List ℕ) → count ip (remove_ip x xs) ≡ count ip xs - (if x == ip then 1 else 0)
unfolding count remove_ip
count-remove_ip ip x [] = ground arith
count-remove_ip ip x (y ∷ ys) = ground (arith, count-remove_ip ip x ys)

pub held-put_node :
    (ip : ℕ) (name : String) (n n' : Node) (ns : List Node)
    → find_node name ns ≡ some n
    → held ip (put_node name n' ns) + count ip n.pool.allocated_ips
      ≡ held ip ns + count ip n'.pool.allocated_ips
unfolding held find_node put_node
held-put_node ip name n n' [] e = absurd (cc)
held-put_node ip name n n' (m ∷ ns) e = elim (Bool-cases (str_eq m.node_name name)) [
  | inl hit ↦
      let same : m ≡ n = ground arith in
      let count_same = ap (λ (k : Node). count ip k.pool.allocated_ips) same in
      rw hit (omega (arith, count_same))
  | inr miss ↦ let ih = held-put_node ip name n n' ns (ground arith) in rw miss (omega (arith, ih))
]

pub held-remove_node :
    (ip : ℕ) (name : String) (ns ns' : List Node)
    → remove_node name ns ≡ some ns'
    → held ip ns' ≤ held ip ns
unfolding held remove_node
held-remove_node ip name [] ns' e = absurd (cc)
held-remove_node ip name (n ∷ ns) ns' e = elim (Bool-cases (str_eq n.node_name name)) [
  | inl hit ↦ let same : ns ≡ ns' = ground arith in omega (arith, ap (held ip) same)
  | inr miss ↦ elim (Option-cases (remove_node name ns)) [
    | inl nowhere ↦ absurd (ground arith)
    | inr (ms, there) ↦
        let same : n ∷ ms ≡ ns' = ground arith in
        omega (arith, ap (held ip) same, held-remove_node ip name ns ms there)
  ]
]

pub held-append : (ip : ℕ) (ns ms : List Node) → held ip (ns ++ ms) ≡ held ip ns + held ip ms
unfolding held
held-append ip [] ms = omega arith
held-append ip (n ∷ ns) ms = omega (arith, held-append ip ns ms)

pub held-release_from :
    (ip x : ℕ) (ns : List Node)
    → held ip (release_from x ns).0 ≡ held ip ns - (if x == ip then 1 else 0)
unfolding held release_from
held-release_from ip x [] = ground arith
held-release_from ip x (n ∷ ns) = ground (
  arith,
  held-release_from ip x ns,
  count-is_allocated x n.pool.allocated_ips,
  count-remove_ip ip x n.pool.allocated_ips,
)

pub held-new_node : (ip : ℕ) (m : Manager) (name : String) → held ip (new_node m name ∷ []) ≡ 0
unfolding held new_node
held-new_node ip m name = omega arith

-- Some node gives up an address that is held.
pub release_from_found : (ip : ℕ) (ns : List Node) → 0 < held ip ns → (release_from ip ns).1 ≡ true
unfolding held release_from
release_from_found ip [] h = absurd (omega arith)
release_from_found ip (n ∷ ns) h =
    ground (arith, release_from_found ip ns, count-is_allocated ip n.pool.allocated_ips)
