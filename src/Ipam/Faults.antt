-- ===== src/Ipam/Faults.antt =====
-- Where internal/ipam/ipam_manager.c does not do what its comments say.
use mathlib.Core.List.{Memᴰ}
use sirah_c.Prelude.{
  ℕ, suc, ◌<◌, ◌≡◌, ◌≢◌, refl, sym, subst, ◌∙◌, ap, inl, inr, Bool, true, false, none, some, List,
  [], ◌∷◌, ◌++◌, String, str_eq, arith, length, Bool-cases, Option-cases, length-append,
}
use sirah_c.Ipam.{Pool, Node, Manager, Cidr, cidr_range, create}
use sirah_c.Ipam.Queries.{is_ip_available}
use sirah_c.Ipam.Pools.{
  grow, push, is_allocated, get_next_available_ip, find_node, new_node, remove_node, register_node,
  unregister_node, allocate_service_ip,
}
use sirah_c.Ipam.Allocation.{IsSized, pushed, grow-push}
use sirah_c.Ipam.Sharing.{count-is_allocated}
use sirah_c.Ipam.Bounds.{
  count-pushed, max_calls, IsBounded-IsSized, pushed-IsBounded, remove_node-cases,
}
use sirah_c.Ipam.Invariant.{IsSound}

-- The prefix is always written through a null pointer: no manager is ever created.
pub create_faults : (cluster service : Cidr) → create cluster service ≡ none
unfolding create
create_faults cluster service = elim (Option-cases (cidr_range cluster)) [
  | inl shift ↦ rw (shift, create)
  | inr (range, e) ↦ rw (e, create)
]

allocate_service_ip_gives :
    (m : Manager) (ip : ℕ)
    → IsSized m.service_ips
    → get_next_available_ip m m.service_start m.service_end ≡ some ip
    → allocate_service_ip m true
      ≡ some (record m { service_ips = pushed m.service_ips ip }, some ip)
unfolding allocate_service_ip
allocate_service_ip_gives m ip sized free =
    let (going, written) = grow-push m.service_ips ip sized in
    rw (free, allocate_service_ip) (rw (going, written))

allocate_service_ip_given :
    (m m₁ : Manager) (ip : ℕ)
    → IsSized m.service_ips
    → allocate_service_ip m true ≡ some (m₁, some ip)
    → (get_next_available_ip m m.service_start m.service_end ≡ some ip)
      × (record m { service_ips = pushed m.service_ips ip } ≡ m₁)
unfolding allocate_service_ip
allocate_service_ip_given m m₁ ip sized e =
    elim (Option-cases (get_next_available_ip m m.service_start m.service_end)) [
      | inl full ↦
          let nothing : allocate_service_ip m true ≡ some (m, none) =
            rw (full, allocate_service_ip) in
          absurd (ground arith)
      | inr (other, free) ↦
          let gives = sym (allocate_service_ip_gives m other sized free) ∙ e in
          let same : other ≡ ip = ground arith in
          (
            free ∙ ap some same,
            subst (λ a. record m { service_ips = pushed m.service_ips a } ≡ m₁) same (ground arith),
          )
    ]

count-pushed_self : (p : Pool) (ip : ℕ) → is_allocated ip (pushed p ip).allocated_ips ≡ true
count-pushed_self p ip =
    ground (arith, count-is_allocated ip (pushed p ip).allocated_ips, count-pushed p ip ip)

unavailable :
    (m : Manager) (ip : ℕ)
    → is_allocated ip m.service_ips.allocated_ips ≡ true
    → is_ip_available m ip ≡ false
unfolding is_ip_available
unavailable m ip held = ground arith

same_search :
    (m : Manager) (p : Pool) (first last : ℕ)
    → get_next_available_ip (record m { service_ips = p }) first last
      ≡ get_next_available_ip m first last
unfolding get_next_available_ip
same_search m p first last = refl

-- A service address that was just given is given again by the next call, though `is_ip_available` knows
-- that it is taken. (The search looks at the addresses of pods only.)
pub service_ip_repeats :
    (k : ℕ) (m m₁ : Manager) (ip : ℕ)
    → IsSound k m
    → suc k < max_calls
    → allocate_service_ip m true ≡ some (m₁, some ip)
    → ((m₂ : Manager) × (allocate_service_ip m₁ true ≡ some (m₂, some ip)))
      × (is_ip_available m₁ ip ≡ false)
service_ip_repeats k m m₁ ip h few e =
    let sized = IsBounded-IsSized k m.service_ips (omega arith) h.service_pool in
    let (free, m₁_is) = allocate_service_ip_given m m₁ ip sized e in
    let bounded' = pushed-IsBounded k m.service_ips ip (omega arith) h.service_pool in
    let sized' = IsBounded-IsSized (suc k) (pushed m.service_ips ip) few bounded' in
    let m' : Manager = record m { service_ips = pushed m.service_ips ip } in
    subst
      (λ n.
        ((m₂ : Manager) × (allocate_service_ip n true ≡ some (m₂, some ip)))
        × (is_ip_available n ip ≡ false))
      m₁_is
      (
        (
          record m' { service_ips = pushed m'.service_ips ip },
          allocate_service_ip_gives m' ip sized'
              (same_search m (pushed m.service_ips ip) m.service_start m.service_end ∙ free),
        ),
        unavailable m' ip (count-pushed_self m.service_ips ip),
      )

failed_grow :
    (p : Pool) (ip : ℕ) (reallocated : Bool)
    → length p.allocated_ips ≡ p.ip_capacity
    → p.room ≡ p.ip_capacity
    → 0 < p.ip_capacity
    → p.ip_capacity < 2147483648
    → ((grow false p).1 ≡ false)
      × ((grow reallocated (grow false p).0).1 ≡ true)
      × (push (grow reallocated (grow false p).0).0 ip ≡ none)
unfolding grow push
failed_grow p ip reallocated full exact pos word = ground arith

-- A failed `realloc` of a full array of service addresses leaves the doubled capacity behind: while an
-- address is free, the next allocation writes behind the end of the array, whatever `realloc` would
-- answer then.
pub failed_realloc_faults :
    (m : Manager) (ip : ℕ) (reallocated : Bool)
    → get_next_available_ip m m.service_start m.service_end ≡ some ip
    → length m.service_ips.allocated_ips ≡ m.service_ips.ip_capacity
    → m.service_ips.room ≡ m.service_ips.ip_capacity
    → 0 < m.service_ips.ip_capacity
    → m.service_ips.ip_capacity < 2147483648
    → (m₁ : Manager) × (allocate_service_ip m false ≡ some (m₁, none))
      × (allocate_service_ip m₁ reallocated ≡ none)
unfolding allocate_service_ip
failed_realloc_faults m ip reallocated free full exact pos word =
    let (stopped, going, missed) = failed_grow m.service_ips ip reallocated full exact pos word in
    let m' : Manager = record m { service_ips = (grow false m.service_ips).0 } in
    let free' = same_search m (grow false m.service_ips).0 m.service_start m.service_end ∙ free in
    (
      m',
      rw (free, allocate_service_ip) (rw stopped),
      rw (free', allocate_service_ip) (rw (going, missed)),
    )

length-remove_node :
    (name : String) (ns ns' : List Node)
    → remove_node name ns ≡ some ns'
    → suc (length ns') ≡ length ns
unfolding remove_node
length-remove_node name [] ns' e = absurd (cc)
length-remove_node name (n ∷ ns) ns' e = elim (remove_node-cases name n ns ns' e) [
  | inl hit ↦ ap (λ (l : List Node). suc (length l)) (sym hit)
  | inr (ms, there, e') ↦ rw e' (ap suc (length-remove_node name ns ms there))
]

mem-last : (last : Node) (ns : List Node) → Memᴰ last (ns ++ last ∷ [])
mem-last last [] = Memᴰ.head refl
mem-last last (n ∷ ns) = Memᴰ.tail (mem-last last ns)

last_stays :
    (name : String) (last : Node) (ns ns' : List Node)
    → remove_node name (ns ++ last ∷ []) ≡ some ns'
    → find_node name ns ≢ none
    → Memᴰ last ns'
unfolding remove_node find_node
last_stays name last [] ns' e h = absurd (h refl)
last_stays name last (n ∷ ns) ns' e h = elim (Bool-cases (str_eq n.node_name name)) [
  | inl hit ↦
      let same : ns ++ last ∷ [] ≡ ns' = ground arith in subst (Memᴰ last) same (mem-last last ns)
  | inr miss ↦ elim (Option-cases (remove_node name (ns ++ last ∷ []))) [
    | inl nowhere ↦ absurd (ground arith)
    | inr (ms, there) ↦
        let same : n ∷ ms ≡ ns' = ground arith in
        let earlier : find_node name ns ≢ none = λ e₁. h (rw (miss, e₁)) in
        subst (Memᴰ last) same (Memᴰ.tail (last_stays name last ns ms there earlier))
  ]
]

new_node-node_cidr_start :
    (m m' : Manager) (a b : String)
    → m.cluster_start ≡ m'.cluster_start
    → length m.nodes ≡ length m'.nodes
    → (new_node m a).node_cidr_start ≡ (new_node m' b).node_cidr_start
unfolding new_node
new_node-node_cidr_start m m' a b e l = rw (e, l)

register_node_cidr :
    (m m₂ : Manager) (fresh : String) (cidr : ℕ)
    → find_node fresh m.nodes ≡ none
    → register_node m fresh true true ≡ some (m₂, some cidr)
    → cidr ≡ (new_node m fresh).node_cidr_start
unfolding register_node
register_node_cidr m m₂ fresh cidr unknown e = ground arith

-- A node registered after an earlier node has gone gets the network of the node that was registered
-- last before, which is still there.
pub register_node_repeats_cidr :
    (m m₁ m₂ : Manager) (gone fresh : String) (ns : List Node) (last : Node) (cidr : ℕ)
    → m.nodes ≡ ns ++ last ∷ []
    → last.node_cidr_start ≡ (new_node (record m { nodes = ns }) last.node_name).node_cidr_start
    → find_node gone ns ≢ none
    → unregister_node m gone ≡ (m₁, true)
    → find_node fresh m₁.nodes ≡ none
    → register_node m₁ fresh true true ≡ some (m₂, some cidr)
    → (cidr ≡ last.node_cidr_start) × Memᴰ last m₁.nodes
unfolding unregister_node
register_node_repeats_cidr m m₁ m₂ gone fresh ns last cidr e start known went unknown came =
    elim (Option-cases (remove_node gone m.nodes)) [
      | inl nowhere ↦ absurd (ground arith)
      | inr (ns', there) ↦
          let gone_is : m₁ ≡ record m { nodes = ns' } = ground arith in
          let there' : remove_node gone (ns ++ last ∷ []) ≡ some ns' = rw (← e) there in
          let short = length-remove_node gone (ns ++ last ∷ []) ns' there' in
          let long = length-append ns (last ∷ []) in
          (
            register_node_cidr m₁ m₂ fresh cidr unknown came
                ∙ new_node-node_cidr_start m₁ (record m { nodes = ns }) fresh last.node_name
                    (ap (λ (x : Manager). x.cluster_start) gone_is)
                    (omega (arith, ap (λ (x : Manager). length x.nodes) gone_is))
                ∙ sym start,
            rw gone_is (last_stays gone last ns ns' there' known),
          )
    ]
