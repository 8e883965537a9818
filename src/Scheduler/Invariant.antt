-- ===== src/Scheduler/Invariant.antt =====
-- What holds of a scheduler of internal/scheduler/scheduler.c between two calls.
use sirah_c.Prelude.{
  ℕ, ◌+◌, ◌-◌, ◌≤◌, ◌<◌, ◌≡◌, refl, ◌∙◌, inl, inr, none, some, ◌>>=◌, List, [], ◌∷◌, String, eq_iff,
  arith, length, length-append, Option-cases,
}
use sirah_c.Scheduler.{
  Node, Pod, Scheduler, new, init, begin_run, shutdown, add_node, update_node, update_node_status,
  add_node_label, add_node_taint, remove_taint, remove_node_taint, cordon_node, uncordon_node,
  drain_node, put_nodes,
}
use sirah_c.Scheduler.Placement.{
  bind_pod, evict_pod, find_best_node, schedule_pod, one_more, one_less, with_capacity, bind_best,
}
use sirah_c.Scheduler.Calls.{
  Call, inits, runs, shuts_down, adds_node, updates_status, adds_label, adds_taint, removes_taint,
  cordons, uncordons, drains, binds, evicts, schedules, after_schedule, step, run,
}
use sirah_c.Scheduler.Accounting.{
  pods_on, assigned_to, pods_on-append, pods_on-update_node, length-update_node,
  pods_on-remove_taint, take_assignment-assigned_to, take_assignment-length, assigned_to-append,
  bind_pod-cases, evict_pod-cases, pods_on-nil, pods_on-nowhere, assigned_to-one,
}

-- The node that a name leads to counts the assignments to that name; both arrays are within their
-- capacities.
pub record IsConsistent (s : Scheduler) : Type 0 where
  pub counted : (k : String) → pods_on k s.nodes ≡ assigned_to k s.assigned
  pub nodes_grow : 0 < s.node_capacity
  pub nodes_fit : length s.nodes ≤ s.node_capacity
  pub assigned_fit : length s.assigned ≤ s.assignment_capacity

new-IsConsistent : IsConsistent new
unfolding new
new-IsConsistent = record {
  counted = pods_on-nil;
  nodes_grow = omega arith;
  nodes_fit = omega arith;
  assigned_fit = omega arith;
}

-- Nodes that are as many and count the same pods.
same_nodes-IsConsistent :
    (s : Scheduler) (ns : List Node)
    → ((k : String) → pods_on k ns ≡ pods_on k s.nodes)
    → length ns ≡ length s.nodes
    → IsConsistent s
    → IsConsistent (record s { nodes = ns })
same_nodes-IsConsistent s ns same long h = record {
  counted = λ k. same k ∙ h.counted k;
  nodes_grow = h.nodes_grow;
  nodes_fit = omega (arith, h.nodes_fit);
  assigned_fit = h.assigned_fit;
}

-- A change of a node that keeps its name and its pod count.
relabel-IsConsistent :
    (s : Scheduler) (name : String) (f : Node → Node)
    → ((n : Node) → (f n).node_name ≡ n.node_name)
    → ((n : Node) → (f n).pod_count ≡ n.pod_count)
    → IsConsistent s
    → IsConsistent (put_nodes s (update_node name f s.nodes)).0
relabel-IsConsistent s name f same count h = elim (Option-cases (update_node name f s.nodes)) [
  | inl nowhere ↦ rw nowhere h
  | inr (ns, there) ↦ rw there (
      same_nodes-IsConsistent s ns
        (λ k. ground (arith, pods_on-update_node name f (λ c. c) same count k s.nodes ns there))
        (length-update_node name f s.nodes ns there) h)
]

add_node-IsConsistent :
    (s : Scheduler) (name : String) (cpu memory now : ℕ)
    → IsConsistent s
    → IsConsistent (add_node s name cpu memory now).0
unfolding add_node
add_node-IsConsistent s name cpu memory now h = record {
  counted = λ k. pods_on-append k s.nodes _ refl ∙ h.counted k;
  nodes_grow = ground (arith, h.nodes_grow);
  nodes_fit = rw (length-append s.nodes (_ ∷ [])) (ground (arith, h.nodes_grow, h.nodes_fit));
  assigned_fit = h.assigned_fit;
}

remove_node_taint-IsConsistent :
    (s : Scheduler) (name taint : String)
    → IsConsistent s
    → IsConsistent (remove_node_taint s name taint).0
unfolding remove_node_taint
remove_node_taint-IsConsistent s name taint h =
    elim (Option-cases (remove_taint name taint s.nodes)) [
      | inl nowhere ↦ rw nowhere h
      | inr (ns, there) ↦ rw there (
          same_nodes-IsConsistent s ns (λ k. (pods_on-remove_taint name taint k s.nodes ns there).0)
            (pods_on-remove_taint name taint name s.nodes ns there).1 h)
    ]

with_capacity-IsConsistent : (s : Scheduler) → IsConsistent s → IsConsistent (with_capacity s)
with_capacity-IsConsistent s h = record {
  counted = h.counted;
  nodes_grow = h.nodes_grow;
  nodes_fit = h.nodes_fit;
  assigned_fit = ground (arith, h.assigned_fit);
}

bind_pod-IsConsistent :
    (s : Scheduler) (pod name : String) → IsConsistent s → IsConsistent (bind_pod s pod name).0
bind_pod-IsConsistent s pod name h = elim (bind_pod-cases s pod name) [
  | inl refused ↦ rw refused (with_capacity-IsConsistent s h)
  | inr (ns, there, room, bound) ↦ rw bound (record {
    counted = λ k.
        rw (assigned_to-append k s.assigned ((pod, name) ∷ []), assigned_to-one k pod name)
          (ground (
            arith,
            pods_on-update_node name one_more (λ c. c + 1) (λ n. refl) (λ n. refl) k s.nodes ns
                there,
            h.counted k,
          ));
    nodes_grow = h.nodes_grow;
    nodes_fit = omega (arith, h.nodes_fit, length-update_node name one_more s.nodes ns there);
    assigned_fit = omega (arith, length-append s.assigned ((pod, name) ∷ []));
  })
]

evict_pod-IsConsistent :
    (s : Scheduler) (pod : String) → IsConsistent s → IsConsistent (evict_pod s pod).0
evict_pod-IsConsistent s pod h = elim (evict_pod-cases s pod) [
  | inl refused ↦ rw refused h
  | inr (name, rest, there, evicted) ↦
      let shorter = take_assignment-length pod name s.assigned rest there in
      let fewer = take_assignment-assigned_to pod name s.assigned rest there in
      elim (Option-cases (update_node name one_less s.nodes)) [
        | inl nowhere ↦ absurd (
            ground (
              arith,
              pods_on-nowhere name one_less s.nodes nowhere,
              h.counted name,
              fewer name,
              eq_iff name name,
            ))
        | inr (ns, changed) ↦
            rw (evicted, changed)
              (record {
                counted = λ k. ground (
                  arith,
                  pods_on-update_node name one_less (λ c. c - 1) (λ n. refl) (λ n. refl) k s.nodes
                      ns changed,
                  h.counted k,
                  fewer k,
                );
                nodes_grow = h.nodes_grow;
                nodes_fit =
                    omega (arith, h.nodes_fit, length-update_node name one_less s.nodes ns changed);
                assigned_fit = omega (arith, h.assigned_fit, shorter);
              })
      ]
]

schedule_pod-IsConsistent :
    (s : Scheduler) (p : Pod) → IsConsistent s → IsConsistent (after_schedule s (schedule_pod s p))
unfolding schedule_pod
schedule_pod-IsConsistent s p h =
    elim (find_best_node s p)
      as (λ r. IsConsistent (after_schedule s (r >>= λ best. some (bind_best s p best)))) [
        | none ↦ h
        | some none ↦ h
        | some (some name) ↦ bind_pod-IsConsistent s p.pod_name name h
      ]

update_node_status-IsConsistent :
    (s : Scheduler) (name status : String) (now : ℕ)
    → IsConsistent s
    → IsConsistent (update_node_status s name status now).0
unfolding update_node_status
update_node_status-IsConsistent s name status now h =
    relabel-IsConsistent s name _ (λ n. refl) (λ n. refl) h

-- Every call keeps a scheduler consistent: each name's node counts exactly the assignments to that
-- name, so that no eviction takes a pod count below 0, and neither array outgrows its capacity.
pub step-IsConsistent : (s : Scheduler) (c : Call) → IsConsistent s → IsConsistent (step s c)
unfolding step init begin_run shutdown add_node_label add_node_taint drain_node cordon_node
    uncordon_node
step-IsConsistent s inits h = record {
  counted = h.counted;
  nodes_grow = h.nodes_grow;
  nodes_fit = h.nodes_fit;
  assigned_fit = h.assigned_fit;
}
step-IsConsistent s runs h = record {
  counted = h.counted;
  nodes_grow = h.nodes_grow;
  nodes_fit = h.nodes_fit;
  assigned_fit = h.assigned_fit;
}
step-IsConsistent s shuts_down h = record {
  counted = h.counted;
  nodes_grow = h.nodes_grow;
  nodes_fit = h.nodes_fit;
  assigned_fit = h.assigned_fit;
}
step-IsConsistent s (adds_node name cpu memory now) h =
    add_node-IsConsistent s name cpu memory now h
step-IsConsistent s (updates_status name status now) h =
    update_node_status-IsConsistent s name status now h
step-IsConsistent s (adds_label name key value) h =
    relabel-IsConsistent s name _ (λ n. refl) (λ n. refl) h
step-IsConsistent s (adds_taint name taint) h =
    relabel-IsConsistent s name _ (λ n. refl) (λ n. refl) h
step-IsConsistent s (removes_taint name taint) h = remove_node_taint-IsConsistent s name taint h
step-IsConsistent s (cordons name now) h = update_node_status-IsConsistent s name "Cordoned" now h
step-IsConsistent s (uncordons name now) h = update_node_status-IsConsistent s name "Ready" now h
step-IsConsistent s (drains name) h = relabel-IsConsistent s name _ (λ n. refl) (λ n. refl) h
step-IsConsistent s (binds pod name) h = bind_pod-IsConsistent s pod name h
step-IsConsistent s (evicts pod) h = evict_pod-IsConsistent s pod h
step-IsConsistent s (schedules p) h = schedule_pod-IsConsistent s p h

run_from-IsConsistent : (s : Scheduler) (cs : List Call) → IsConsistent s → IsConsistent (run s cs)
unfolding run
run_from-IsConsistent s [] h = h
run_from-IsConsistent s (c ∷ cs) h = run_from-IsConsistent (step s c) cs (step-IsConsistent s c h)

-- So every scheduler that calls lead to from a new one is consistent.
pub run-IsConsistent : (cs : List Call) → IsConsistent (run new cs)
run-IsConsistent cs = run_from-IsConsistent new cs new-IsConsistent
