-- ===== src/Scheduler/Binding.antt =====
-- What binding, eviction and the choice of a node in internal/scheduler/scheduler.c leave as it was.
use sirah_c.Prelude.{
  ℕ, ◌≡◌, refl, sym, ap, ◌∙◌, inl, inr, none, some, List, [], ◌∷◌, ◌++◌, map, String, eq_iff, arith,
  Option-cases,
}
use sirah_c.Scheduler.{Status, ok, Node, Pod, Scheduler, update_node}
use sirah_c.Scheduler.Scoring.{combined}
use sirah_c.Scheduler.Placement.{
  take_assignment, bind_pod, evict_pod, one_more, one_less, with_capacity, assign, best_from,
  better, Best, find_best_node, schedule_pod,
}
use sirah_c.Scheduler.Accounting.{update_node-cases, bind_pod-cases}

-- What a node has given out of its processors and its memory.
abbrev pub allocated : Node → ℕ × ℕ
allocated n = (n.allocated_cpus, n.allocated_memory)

allocated-update_node :
    (name : String) (f : Node → Node) (ns ns' : List Node)
    → ((n : Node) → allocated (f n) ≡ allocated n)
    → update_node name f ns ≡ some ns'
    → map allocated ns' ≡ map allocated ns
unfolding update_node
allocated-update_node name f [] ns' same e = absurd (cc)
allocated-update_node name f (n ∷ ns) ns' same e = elim (update_node-cases name f n ns ns' e) [
  | inl (hit, e') ↦ rw (e', same n)
  | inr (ms, miss, later, e') ↦ rw (e', allocated-update_node name f ns ms same later)
]

bind_pod-allocated :
    (s : Scheduler) (pod name : String)
    → map allocated (bind_pod s pod name).0.nodes ≡ map allocated s.nodes
bind_pod-allocated s pod name = elim (bind_pod-cases s pod name) [
  | inl refused ↦ rw refused
  | inr (ns, there, room, bound) ↦
      rw bound (allocated-update_node name one_more s.nodes ns (λ n. refl) there)
]

-- Scheduling a pod, whatever it requests, changes no node's allocated processors or memory: the next
-- pod is checked against the same amounts.
pub schedule_pod-allocated :
    (s s' : Scheduler) (p : Pod) (status : Status)
    → schedule_pod s p ≡ some (s', status)
    → map allocated s'.nodes ≡ map allocated s.nodes
unfolding schedule_pod
schedule_pod-allocated s s' p status e = elim (Option-cases (find_best_node s p)) [
  | inl trap ↦ absurd (ground arith)
  | inr (none, chosen) ↦ ground arith
  | inr (some name, chosen) ↦
      let bound : bind_pod s p.pod_name name ≡ (s', status) = ground arith in
      rw (← ap (λ (r : Scheduler × Status). map allocated r.0.nodes) bound)
        (bind_pod-allocated s p.pod_name name)
]

update_node_back :
    (name : String) (ns ns' : List Node)
    → update_node name one_more ns ≡ some ns'
    → update_node name one_less ns' ≡ some ns
unfolding update_node
update_node_back name [] ns' e = absurd (cc)
update_node_back name (n ∷ ns) ns' e = elim (update_node-cases name one_more n ns ns' e) [
  | inl (hit, e') ↦
      let back : one_less (one_more n) ≡ n = ground arith in
      rw (e', hit) (ap (λ (m : Node). some (m ∷ ns)) back)
  | inr (ms, miss, later, e') ↦ rw (e', miss, update_node_back name ns ms later)
]

take_assignment-append :
    (pod name : String) (xs : List (String × String))
    → take_assignment pod xs ≡ none
    → take_assignment pod (xs ++ (pod, name) ∷ []) ≡ some (name, xs)
unfolding take_assignment
take_assignment-append pod name [] e = ground (arith, eq_iff pod pod)
take_assignment-append pod name ((q, m) ∷ xs) e = elim (Option-cases (take_assignment pod xs)) [
  | inl nowhere ↦ ground (arith, take_assignment-append pod name xs nowhere)
  | inr ((m', others), there) ↦ absurd (ground arith)
]

evict_pod-assign :
    (s : Scheduler) (pod name : String) (ns : List Node)
    → take_assignment pod s.assigned ≡ none
    → update_node name one_more s.nodes ≡ some ns
    → evict_pod (assign s pod name ns) pod ≡ (s, ok)
unfolding evict_pod
evict_pod-assign s pod name ns fresh there = ground (
  arith,
  take_assignment-append pod name s.assigned fresh,
  update_node_back name s.nodes ns there,
)

-- Evicting a pod that was not assigned before its binding restores the nodes and the assignments.
pub evict_pod-bind_pod :
    (s s' : Scheduler) (pod name : String)
    → take_assignment pod s.assigned ≡ none
    → bind_pod s pod name ≡ (s', ok)
    → evict_pod s' pod ≡ (with_capacity s, ok)
evict_pod-bind_pod s s' pod name fresh e = elim (bind_pod-cases s pod name) [
  | inl refused ↦ absurd (cc)
  | inr (ns, there, room, bound) ↦
      rw (ap (λ (r : Scheduler × Status). r.0) (sym e ∙ bound))
        (evict_pod-assign (with_capacity s) pod name ns fresh there)
]

-- The labels that a pod requires of its node have no part in the choice.
with_labels : Pod → List String → Pod
with_labels p labels = record p { required_node_labels = labels }

combined-with_labels :
    (s : Scheduler) (p : Pod) (labels : List String) (n : Node)
    → combined s n (with_labels p labels) ≡ combined s n p
unfolding combined with_labels
combined-with_labels s p labels n = refl

best_from-with_labels :
    (s : Scheduler) (p : Pod) (labels : List String) (ns : List Node) (best : Best)
    → best_from s (with_labels p labels) ns best ≡ best_from s p ns best
unfolding best_from with_labels
best_from-with_labels s p labels [] best = refl
best_from-with_labels s p labels (n ∷ ns) best =
    let same : combined s n (with_labels p labels) ≡ combined s n p =
      combined-with_labels s p labels n in
    elim (Option-cases (combined s n p)) [
      | inl trap ↦ ground (arith, best_from-with_labels s p labels ns best)
      | inr (score, scored) ↦ ground (
        arith,
        best_from-with_labels s p labels ns best,
        best_from-with_labels s p labels ns (better score n.node_name best),
      )
    ]

-- Whatever labels a pod requires of its node, the choice of a node comes out the same.
pub find_best_node-required_node_labels :
    (s : Scheduler) (p : Pod) (labels : List String)
    → find_best_node s (record p { required_node_labels = labels }) ≡ find_best_node s p
unfolding find_best_node with_labels
find_best_node-required_node_labels s p labels = rw (best_from-with_labels s p labels s.nodes none)
