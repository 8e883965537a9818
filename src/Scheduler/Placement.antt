-- ===== src/Scheduler/Placement.antt =====
-- internal/scheduler/scheduler.c: the checks of a node against a pod, the choice of a node, and the
-- assignments. An outer `none` is a trap inside the scoring (see Scheduler/Scoring.antt).
use sirah_c.Prelude.{
  ℕ, ◌+◌, ◌-◌, ◌*◌, Bool, true, false, not, Option, none, some, ◌>>=◌, List, [], ◌∷◌, ◌++◌, String,
  str_eq, ltb, leb, ◌==◌, if◌then◌else◌, length,
}
use sirah_c.Scheduler.{Status, ok, error, Request, Node, Pod, Scheduler, get_node, update_node}
use sirah_c.Scheduler.Scoring.{has_key, combined, quotient}

-- `none` is a division by zero, `some none` an unknown node.
unfoldable pub get_node_utilization : Scheduler → String → Option (Option (ℕ × ℕ))
unfolding get_node
get_node_utilization s name = elim (get_node s name) [
  | none ↦ some none
  | some n ↦ do
    cpu ← quotient (n.allocated_cpus * 100) n.allocatable_cpus
    memory ← quotient (n.allocated_memory * 100) n.allocatable_memory
    some (some (cpu, memory))
]

abbrev pub fits : Node → Request → Bool
fits n r =
    if ltb n.allocatable_cpus (n.allocated_cpus + r.cpu_millicores)
    then false
    else (if ltb n.allocatable_memory (n.allocated_memory + r.memory_bytes)
        then false
        else (if leb n.max_pods n.pod_count then false else true))

unfoldable pub check_resource_fit : Scheduler → String → Request → Bool
unfolding get_node
check_resource_fit s name r = elim (get_node s name) [ none ↦ false | some n ↦ fits n r ]

unfoldable pub all_labels : Scheduler → String → List String → Bool
unfolding get_node has_key
all_labels s name [] = true
all_labels s name (l ∷ ls) =
    let rest = all_labels s name ls in
    elim (get_node s name) [ none ↦ false | some n ↦ if has_key n.labels l then rest else false ]

unfoldable pub check_affinity_match : Scheduler → String → Pod → Bool
unfolding all_labels
check_affinity_match s name p = all_labels s name p.required_node_labels

unfoldable pub tolerated : List String → String → Bool
tolerated [] taint = false
tolerated (t ∷ ts) taint = if str_eq taint t then true else tolerated ts taint

unfoldable pub all_tolerated : List String → List String → Bool
unfolding tolerated
all_tolerated tolerations [] = true
all_tolerated tolerations (t ∷ ts) =
    let rest = all_tolerated tolerations ts in if tolerated tolerations t then rest else false

unfoldable pub check_toleration_match : Scheduler → String → Pod → Bool
unfolding get_node all_tolerated
check_toleration_match s name p = elim (get_node s name) [
  | none ↦ false
  | some n ↦ all_tolerated p.tolerated_taints n.taints
]

-- `best_score` and `best_node`; no node yet stands for the initial score -1.
abbrev pub Best : Type 0
Best = Option (ℕ × String)

abbrev pub better : ℕ → String → Best → Best
better score name none = some (score, name)
better score name (some (best_score, best_node)) =
    if ltb best_score score then some (score, name) else some (best_score, best_node)

unfoldable pub best_from : Scheduler → Pod → List Node → Best → Option Best
unfolding check_resource_fit check_toleration_match
best_from s p [] best = some best
best_from s p (n ∷ ns) best =
    let skip = best_from s p ns best in
    let scored = combined s n p >>= λ score. best_from s p ns (better score n.node_name best) in
    if not (str_eq n.status "Ready")
    then skip
    else (if not (check_resource_fit s n.node_name p.request)
        then skip
        else (if not (check_toleration_match s n.node_name p) then skip else scored))

abbrev pub node_of : Best → Option String
node_of none = none
node_of (some (score, name)) = some name

unfoldable pub find_best_node : Scheduler → Pod → Option (Option String)
unfolding best_from
find_best_node s p = do best ← best_from s p s.nodes none; some (node_of best)

pub data Reason : Type 0 where
  not_ready insufficient_resources taint_not_tolerated : Reason

-- `infeasibility_reason` is `none` where `feasible` is 1.
pub record NodeScore : Type 0 where
  pub node_name : String
  pub score : ℕ
  pub infeasibility_reason : Option Reason

unfoldable pub infeasibility : Scheduler → Pod → Node → Option Reason
unfolding check_resource_fit check_toleration_match
infeasibility s p n =
    if not (str_eq n.status "Ready")
    then some not_ready
    else (if not (check_resource_fit s n.node_name p.request)
        then some insufficient_resources
        else (if not (check_toleration_match s n.node_name p)
            then some taint_not_tolerated
            else none))

unfoldable pub score_node : Scheduler → Pod → Node → Option NodeScore
unfolding infeasibility
score_node s p n = elim (infeasibility s p n) [
  | some r ↦ some (record { node_name = n.node_name; score = 0; infeasibility_reason = some r })
  | none ↦ do
    score ← combined s n p
    some (record { node_name = n.node_name; score = score; infeasibility_reason = none })
]

unfoldable pub scores_from : Scheduler → Pod → List Node → Option (List NodeScore)
unfolding score_node
scores_from s p [] = some []
scores_from s p (n ∷ ns) = do x ← score_node s p n; xs ← scores_from s p ns; some (x ∷ xs)

unfoldable pub score_nodes : Scheduler → Pod → Option (List NodeScore)
unfolding scores_from
score_nodes s p = scores_from s p s.nodes

abbrev pub one_more : Node → Node
one_more n = record n { pod_count = n.pod_count + 1 }

-- A capacity of 0 is set to the default first.
abbrev pub with_capacity : Scheduler → Scheduler
with_capacity s = record s {
  assignment_capacity = if s.assignment_capacity == 0 then 5000 else s.assignment_capacity;
}

abbrev pub assign : Scheduler → String → String → List Node → Scheduler
assign s pod name ns = record s { nodes = ns; assigned = s.assigned ++ (pod, name) ∷ [] }

unfoldable pub bind_pod : Scheduler → String → String → Scheduler × Status
unfolding update_node
bind_pod s pod name =
    if leb (with_capacity s).assignment_capacity (length s.assigned)
    then (with_capacity s, error)
    else elim (update_node name one_more s.nodes) [
      | none ↦ (with_capacity s, error)
      | some ns ↦ (assign (with_capacity s) pod name ns, ok)
    ]

abbrev pub keep_or : {A : Type 0} → A → Option A → A
keep_or a none = a
keep_or a (some b) = b

abbrev pub keep_assignment :
    String × String
    → Option (String × List (String × String))
    → Option (String × List (String × String))
keep_assignment a none = none
keep_assignment a (some (name, others)) = some (name, a ∷ others)

-- The first assignment of the pod: its node, and the other assignments.
unfoldable pub take_assignment :
    String → List (String × String) → Option (String × List (String × String))
take_assignment pod [] = none
take_assignment pod ((q, name) ∷ rest) =
    let later = keep_assignment (q, name) (take_assignment pod rest) in
    if str_eq q pod then some (name, rest) else later

abbrev pub one_less : Node → Node
one_less n = record n { pod_count = n.pod_count - 1 }

-- `pod_count--` is exact where the count is not 0.
unfoldable pub evict_pod : Scheduler → String → Scheduler × Status
unfolding update_node take_assignment
evict_pod s pod = elim (take_assignment pod s.assigned) [
  | none ↦ (s, error)
  | some (name, rest) ↦ (
    record s { nodes = keep_or s.nodes (update_node name one_less s.nodes); assigned = rest },
    ok,
  )
]

abbrev pub bind_best : Scheduler → Pod → Option String → Scheduler × Status
bind_best s p none = (s, error)
bind_best s p (some name) = bind_pod s p.pod_name name

unfoldable pub schedule_pod : Scheduler → Pod → Option (Scheduler × Status)
unfolding find_best_node bind_pod
schedule_pod s p = do best ← find_best_node s p; some (bind_best s p best)
