-- ===== src/Scheduler/Tests.antt =====
-- Runs of internal/scheduler, and the theorems at concrete inputs.
use mathlib.Core.List.{Memᴰ}
use sirah_c.Prelude.{
  ℕ, ◌≤◌, ◌≡◌, refl, ◌⊎◌, inr, false, Option, none, some, List, [], ◌∷◌, String, arith,
}
use sirah_c.Scheduler.{ok, Node, Pod, Scheduler, new, add_node}
use sirah_c.Scheduler.Scoring.{combined}
use sirah_c.Scheduler.Placement.{
  NodeScore, bind_pod, evict_pod, find_best_node, score_nodes, infeasibility, with_capacity,
}
use sirah_c.Scheduler.Calls.{Call, adds_node, binds, evicts, run}
use sirah_c.Scheduler.Invariant.{IsConsistent, run-IsConsistent}
use sirah_c.Scheduler.Choice.{IsBestOf, find_best_node-IsBestOf}
use sirah_c.Scheduler.Weights.{find_best_node_trap, combined_defined}
use sirah_c.Scheduler.Binding.{evict_pod-bind_pod}

abbrev node : Node
node = record {
  node_name = "a";
  status = "Ready";
  allocatable_cpus = 1000;
  allocatable_memory = 4096;
  allocated_cpus = 0;
  allocated_memory = 0;
  pod_count = 0;
  max_pods = 110;
  taints = [];
  labels = [];
  last_heartbeat = 0;
}

abbrev pod : Pod
pod = record {
  pod_name = "web";
  namespace = "default";
  request = record { cpu_millicores = 600; memory_bytes = 1024; ephemeral_storage = 0 };
  pod_affinity_keys = [];
  pod_anti_affinity_keys = [];
  required_node_labels = [];
  preferred_node_labels = [];
  tolerated_taints = [];
  priority = 0;
  preemption_enabled = false;
}

abbrev one_node : Scheduler
one_node = (add_node new "a" 1000 4096 0).0

-- The default weights with 30 for the affinity part in place of 20.
abbrev balanced : Scheduler
balanced = record one_node { weight_affinity = 30 }

chooses_a : find_best_node balanced pod ≡ some (some "a")
unfolding find_best_node new add_node combined
chooses_a = refl

abbrev calls : List Call
calls = adds_node "a" 1000 4096 0 ∷ binds "web" "a" ∷ evicts "web" ∷ []

run-IsConsistent_example : IsConsistent (run new calls)
run-IsConsistent_example = run-IsConsistent calls

find_best_node-IsBestOf_example :
    ((score_nodes balanced pod ≡ none) × (find_best_node balanced pod ≡ none))
    ⊎ ((xs : List NodeScore) × (best : Option String) × (score_nodes balanced pod ≡ some xs)
        × (find_best_node balanced pod ≡ some best)
        × IsBestOf xs best)
find_best_node-IsBestOf_example = find_best_node-IsBestOf balanced pod

find_best_node_trap_example : find_best_node one_node pod ≡ none
unfolding new add_node infeasibility
find_best_node_trap_example =
    find_best_node_trap one_node pod node (Memᴰ.head refl) refl (omega arith) (omega arith)

combined_defined_example : (score : ℕ) × (combined balanced node pod ≡ some score) × (score ≤ 100)
unfolding new add_node
combined_defined_example =
    combined_defined balanced node pod refl (omega arith) (omega arith) (inr (omega arith))

evict_pod-bind_pod_example :
    evict_pod (bind_pod balanced "web" "a").0 "web" ≡ (with_capacity balanced, ok)
unfolding new add_node bind_pod evict_pod
evict_pod-bind_pod_example =
    evict_pod-bind_pod balanced (bind_pod balanced "web" "a").0 "web" "a" refl refl
