-- ===== src/Scheduler/Weights.antt =====
-- The score of internal/scheduler/scoring.c as the scheduler's weights make it.
use mathlib.Core.List.{Memᴰ}
use sirah_c.Prelude.{
  ℕ, ◌+◌, ◌*◌, ◌/◌, ◌≤◌, ◌<◌, ◌≡◌, ◌≢◌, subst, ◌⊎◌, inl, inr, true, none, some, List, [], ◌∷◌, ltb,
  if◌then◌else◌, arith, Option-cases,
}
use sirah_c.Scheduler.{Node, Pod, Scheduler}
use sirah_c.Scheduler.Scoring.{
  bin_packing, pod_spread, Tally, add_bin_packing, add_pod_spread, add_affinity, add_topology,
  normalize, combined,
}
use sirah_c.Scheduler.Placement.{
  find_best_node, infeasibility, score_node, scores_from, score_nodes, fits,
}
use sirah_c.Scheduler.Choice.{find_best_node-IsBestOf}

-- The sum of the weights of the parts that are switched on, the topology part aside.
abbrev pub enabled_weight : Scheduler → ℕ
enabled_weight s =
    (if s.enable_bin_packing then s.weight_bin_packing else 0)
    + (if s.enable_pod_spread then s.weight_pod_spread else 0)
    + (if s.enable_affinity then s.weight_affinity else 0)

-- A part that ends in no trap adds its weight.
add_bin_packing-weights_sum :
    (s : Scheduler) (n : Node) (p : Pod) (t t' : Tally)
    → add_bin_packing s n p t ≡ some t'
    → t'.weights_sum ≡ t.weights_sum + (if s.enable_bin_packing then s.weight_bin_packing else 0)
unfolding add_bin_packing
add_bin_packing-weights_sum s n p t t' e = elim (Option-cases (bin_packing n p.request)) [
  | inl trap ↦ ground arith
  | inr (score, scored) ↦ ground arith
]

add_pod_spread-weights_sum :
    (s : Scheduler) (n : Node) (t t' : Tally)
    → add_pod_spread s n t ≡ some t'
    → t'.weights_sum ≡ t.weights_sum + (if s.enable_pod_spread then s.weight_pod_spread else 0)
unfolding add_pod_spread
add_pod_spread-weights_sum s n t t' e = elim (Option-cases (pod_spread n)) [
  | inl trap ↦ ground arith
  | inr (score, scored) ↦ ground arith
]

add_affinity-weights_sum :
    (s : Scheduler) (n : Node) (p : Pod) (t t' : Tally)
    → add_affinity s n p t ≡ some t'
    → t'.weights_sum ≡ t.weights_sum + (if s.enable_affinity then s.weight_affinity else 0)
unfolding add_affinity
add_affinity-weights_sum s n p t t' e = ground arith

add_topology-weights_sum :
    (s : Scheduler) (n : Node) (t t' : Tally)
    → add_topology s n t ≡ some t'
    → t'.weights_sum ≡ t.weights_sum
unfolding add_topology
add_topology-weights_sum s n t t' e = ground arith

normalize_trap : (t : Tally) → 0 < t.weights_sum → t.weights_sum < 100 → normalize t ≡ none
unfolding normalize
normalize_trap t pos light = ground arith

start : Tally
start = record { total_score = 0; weights_sum = 0 }

-- With parts that weigh less than 100 in all, though not 0, the score is divided by 0.
pub combined_trap :
    (s : Scheduler) (n : Node) (p : Pod)
    → 0 < enabled_weight s
    → enabled_weight s < 100
    → combined s n p ≡ none
unfolding combined start
combined_trap s n p pos light = elim (Option-cases (add_bin_packing s n p start)) [
  | inl trap ↦ rw (trap, combined)
  | inr (packed, e₁) ↦ elim (Option-cases (add_pod_spread s n packed)) [
    | inl trap ↦ rw (e₁, trap, combined)
    | inr (spread, e₂) ↦ elim (Option-cases (add_affinity s n p spread)) [
      | inl trap ↦ rw (e₁, e₂, trap, combined)
      | inr (affine, e₃) ↦ elim (Option-cases (add_topology s n affine)) [
        | inl trap ↦ rw (e₁, e₂, e₃, trap, combined)
        | inr (full, e₄) ↦
            let w₁ = add_bin_packing-weights_sum s n p start packed e₁ in
            let w₂ = add_pod_spread-weights_sum s n packed spread e₂ in
            let w₃ = add_affinity-weights_sum s n p spread affine e₃ in
            let w₄ = add_topology-weights_sum s n affine full e₄ in
            rw (e₁, e₂, e₃, e₄, combined) (normalize_trap full (omega arith) (omega arith))
      ]
    ]
  ]
]

scores_from_trap :
    (s : Scheduler) (p : Pod) (n : Node) (ns : List Node)
    → Memᴰ n ns
    → infeasibility s p n ≡ none
    → combined s n p ≡ none
    → scores_from s p ns ≡ none
unfolding scores_from score_node
scores_from_trap s p n [] listed f trap = elim listed [ ]
scores_from_trap s p n (m ∷ ns) (Memᴰ.head same) f trap =
    let stop : score_node s p m ≡ none =
      subst (λ k. score_node s p k ≡ none) same (rw (f, score_node) (rw trap)) in
    rw (stop, scores_from)
scores_from_trap s p n (m ∷ ns) (Memᴰ.tail later) f trap = elim (Option-cases (score_node s p m)) [
  | inl stop ↦ rw (stop, scores_from)
  | inr (x, e) ↦ rw (e, scores_from_trap s p n ns later f trap, scores_from)
]

-- Where the parts that are switched on weigh less than 100 in all, though not 0, as the default weights
-- 40, 30 and 20 do, the choice of a node divides by 0 as soon as any node is feasible for the pod.
pub find_best_node_trap :
    (s : Scheduler) (p : Pod) (n : Node)
    → Memᴰ n s.nodes
    → infeasibility s p n ≡ none
    → 0 < enabled_weight s
    → enabled_weight s < 100
    → find_best_node s p ≡ none
unfolding score_nodes
find_best_node_trap s p n listed f pos light = elim (find_best_node-IsBestOf s p) [
  | inl (trap, stop) ↦ stop
  | inr (xs, best, scored, chosen, _) ↦
      let trap = scores_from_trap s p n s.nodes listed f (combined_trap s n p pos light) in
      absurd (cc)
]

ratio-le : (a d : ℕ) → a ≤ d → 0 < d → a * 100 / d ≤ 100
ratio-le a d h pos = grind arith

bin_packing_defined :
    (n : Node) (p : Pod)
    → fits n p.request ≡ true
    → 0 < n.allocatable_cpus
    → 0 < n.allocatable_memory
    → bin_packing n p.request ≢ none
unfolding bin_packing
bin_packing_defined n p f cpus memory = ground (
  arith,
  ratio-le (n.allocated_cpus + p.request.cpu_millicores) n.allocatable_cpus,
  ratio-le (n.allocated_memory + p.request.memory_bytes) n.allocatable_memory,
)

add_affinity_defined :
    (s : Scheduler) (n : Node) (p : Pod) (t : Tally) → add_affinity s n p t ≢ none
unfolding add_affinity
add_affinity_defined s n p t = ground arith

add_bin_packing_defined :
    (s : Scheduler) (n : Node) (p : Pod) (t : Tally)
    → fits n p.request ≡ true
    → 0 < n.allocatable_cpus
    → 0 < n.allocatable_memory
    → add_bin_packing s n p t ≢ none
unfolding add_bin_packing
add_bin_packing_defined s n p t f cpus memory = elim (Option-cases (bin_packing n p.request)) [
  | inl trap ↦ absurd (bin_packing_defined n p f cpus memory trap)
  | inr (score, scored) ↦ ground arith
]

add_pod_spread_defined :
    (s : Scheduler) (n : Node) (t : Tally) → 0 < n.max_pods → add_pod_spread s n t ≢ none
unfolding add_pod_spread
add_pod_spread_defined s n t pods = ground arith

add_topology_defined :
    (s : Scheduler) (n : Node) (t : Tally) → 0 < n.max_pods → add_topology s n t ≢ none
unfolding add_topology
add_topology_defined s n t pods = ground arith

normalize_defined :
    (t : Tally)
    → (t.weights_sum ≡ 0) ⊎ (100 ≤ t.weights_sum)
    → (score : ℕ) × (normalize t ≡ some score) × (score ≤ 100)
unfolding normalize
normalize_defined t w = (
  if ltb 0 t.weights_sum
      then (if ltb 100 (t.total_score / (t.weights_sum / 100))
          then 100
          else t.total_score / (t.weights_sum / 100))
      else 0,
  ground arith,
  ground arith,
)

-- For a node with positive amounts that has room for the pod, and parts that weigh 0 or at least 100 in
-- all, the score is defined and a percentage.
pub combined_defined :
    (s : Scheduler) (n : Node) (p : Pod)
    → fits n p.request ≡ true
    → 0 < n.allocatable_cpus
    → 0 < n.allocatable_memory
    → (enabled_weight s ≡ 0) ⊎ (100 ≤ enabled_weight s)
    → (score : ℕ) × (combined s n p ≡ some score) × (score ≤ 100)
unfolding combined start
combined_defined s n p f cpus memory w = elim (Option-cases (add_bin_packing s n p start)) [
  | inl trap ↦ absurd (add_bin_packing_defined s n p start f cpus memory trap)
  | inr (packed, e₁) ↦ elim (Option-cases (add_pod_spread s n packed)) [
    | inl trap ↦ absurd (add_pod_spread_defined s n packed (ground arith) trap)
    | inr (spread, e₂) ↦ elim (Option-cases (add_affinity s n p spread)) [
      | inl trap ↦ absurd (add_affinity_defined s n p spread trap)
      | inr (affine, e₃) ↦ elim (Option-cases (add_topology s n affine)) [
        | inl trap ↦ absurd (add_topology_defined s n affine (ground arith) trap)
        | inr (full, e₄) ↦
            let w₁ = add_bin_packing-weights_sum s n p start packed e₁ in
            let w₂ = add_pod_spread-weights_sum s n packed spread e₂ in
            let w₃ = add_affinity-weights_sum s n p spread affine e₃ in
            let w₄ = add_topology-weights_sum s n affine full e₄ in
            let (score, scored, le) = normalize_defined full (omega arith) in
            (score, rw (e₁, e₂, e₃, e₄, combined) scored, le)
      ]
    ]
  ]
]
