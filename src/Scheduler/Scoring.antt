-- ===== src/Scheduler/Scoring.antt =====
-- internal/scheduler/scoring.c. `none` is a division by zero, or a `long` percentage that does not fit
-- the `int` it is stored in.
use sirah_c.Prelude.{
  ℕ, ◌+◌, ◌-◌, ◌*◌, ◌/◌, Bool, true, false, ◌&&◌, Option, none, some, ◌>>=◌, List, [], ◌∷◌, String,
  str_eq, ltb, ◌==◌, if◌then◌else◌, length,
}
use sirah_c.Scheduler.{Request, Node, Pod, Scheduler}

abbrev pub quotient : ℕ → ℕ → Option ℕ
quotient n d = if d == 0 then none else some (n / d)

abbrev pub int_of_long : ℕ → Option ℕ
int_of_long n = if ltb n 2147483648 then some n else none

abbrev pub cap_100 : ℕ → ℕ
cap_100 n = if ltb 100 n then 100 else n

unfoldable pub bin_packing : Node → Request → Option ℕ
bin_packing n r = do
  cpu_ratio ← quotient ((n.allocated_cpus + r.cpu_millicores) * 100) n.allocatable_cpus
  cpu ← int_of_long cpu_ratio
  memory_ratio ← quotient ((n.allocated_memory + r.memory_bytes) * 100) n.allocatable_memory
  memory ← int_of_long memory_ratio
  some ((cap_100 cpu + cap_100 memory) / 2)

-- A negative `100 - used` becomes 0, as `-` on ℕ has it.
unfoldable pub pod_spread : Node → Option ℕ
pod_spread n = do used ← quotient (n.pod_count * 100) n.max_pods; some (100 - used)

-- One for each key, if the node holds any pod.
unfoldable pub count_keys : Node → List String → ℕ
count_keys n [] = 0
count_keys n (k ∷ ks) = (if ltb 0 n.pod_count then 1 else 0) + count_keys n ks

unfoldable pub pod_affinity : Node → Pod → Option ℕ
unfolding count_keys
pod_affinity n p =
    if length p.pod_affinity_keys == 0
    then some 50
    else quotient (count_keys n p.pod_affinity_keys * 100) (length p.pod_affinity_keys)

unfoldable pub pod_anti_affinity : Node → Pod → Option ℕ
unfolding count_keys
pod_anti_affinity n p = if length p.pod_anti_affinity_keys == 0 then some 50 else (do
  ratio ← quotient (count_keys n p.pod_anti_affinity_keys * 100) (length p.pod_anti_affinity_keys)
  some (100 - ratio))

-- The inner loop with its `break`.
unfoldable pub has_key : List (String × String) → String → Bool
has_key [] key = false
has_key ((k, v) ∷ ls) key = if str_eq k key then true else has_key ls key

unfoldable pub count_labels : Node → List String → ℕ
unfolding has_key
count_labels n [] = 0
count_labels n (k ∷ ks) = (if has_key n.labels k then 1 else 0) + count_labels n ks

unfoldable pub node_affinity : Node → Pod → Option ℕ
unfolding count_labels
node_affinity n p =
    if length p.preferred_node_labels == 0
    then some 50
    else quotient (count_labels n p.preferred_node_labels * 100) (length p.preferred_node_labels)

unfoldable pub topology_spread : Node → Option ℕ
topology_spread n = do used ← quotient (n.pod_count * 100) n.max_pods; some (100 - used)

-- `total_score` and `weights_sum`.
pub record Tally : Type 0 where
  pub total_score : ℕ
  pub weights_sum : ℕ

abbrev pub weigh : Tally → ℕ → ℕ → Tally
weigh t score weight = record {
  total_score = t.total_score + score * weight / 100;
  weights_sum = t.weights_sum + weight;
}

unfoldable pub add_bin_packing : Scheduler → Node → Pod → Tally → Option Tally
unfolding bin_packing
add_bin_packing s n p t =
    if s.enable_bin_packing && ltb 0 s.weight_bin_packing
    then (do score ← bin_packing n p.request; some (weigh t score s.weight_bin_packing))
    else some t

unfoldable pub add_pod_spread : Scheduler → Node → Tally → Option Tally
unfolding pod_spread
add_pod_spread s n t =
    if s.enable_pod_spread && ltb 0 s.weight_pod_spread
    then (do score ← pod_spread n; some (weigh t score s.weight_pod_spread))
    else some t

unfoldable pub add_affinity : Scheduler → Node → Pod → Tally → Option Tally
unfolding node_affinity pod_affinity pod_anti_affinity
add_affinity s n p t =
    if s.enable_affinity && ltb 0 s.weight_affinity
    then (do
      na ← node_affinity n p
      paf ← pod_affinity n p
      paaf ← pod_anti_affinity n p
      some (weigh t ((na + paf + paaf) / 3) s.weight_affinity))
    else some t

abbrev pub add_weighted : Tally → ℕ → Tally
add_weighted t score =
    if ltb 0 (100 - t.weights_sum)
    then record t { total_score = t.total_score + score * (100 - t.weights_sum) / 100 }
    else t

-- The remaining weight adds to the total, and not to `weights_sum`.
unfoldable pub add_topology : Scheduler → Node → Tally → Option Tally
unfolding topology_spread
add_topology s n t =
    if s.enable_topology_spread
    then (do score ← topology_spread n; some (add_weighted t score))
    else some t

unfoldable pub normalize : Tally → Option ℕ
normalize t = do
  score ← if ltb 0 t.weights_sum then quotient t.total_score (t.weights_sum / 100) else some 0
  some (cap_100 score)

unfoldable pub combined : Scheduler → Node → Pod → Option ℕ
unfolding add_bin_packing add_pod_spread add_affinity add_topology normalize
combined s n p = do
  packed ← add_bin_packing s n p (record { total_score = 0; weights_sum = 0 })
  spread ← add_pod_spread s n packed
  affine ← add_affinity s n p spread
  full ← add_topology s n affine
  normalize full
