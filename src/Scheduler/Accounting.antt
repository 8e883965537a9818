-- ===== src/Scheduler/Accounting.antt =====
-- The pod counts of internal/scheduler/scheduler.c against its assignments.
use sirah_c.Prelude.{
  ℕ, suc, ◌+◌, ◌<◌, ◌≡◌, refl, ◌⊎◌, inl, inr, true, false, Option, none, some, List, [], ◌∷◌, ◌++◌,
  String, str_eq, eq_iff, leb, if◌then◌else◌, arith, length, Bool-cases, Option-cases,
}
use sirah_c.Scheduler.{
  ok, error, Node, Scheduler, find_node, update_node, remove_first, remove_taint,
}
use sirah_c.Scheduler.Placement.{
  take_assignment, bind_pod, evict_pod, one_more, one_less, with_capacity, assign, keep_or,
}

-- The pod count of the node that a name leads to.
pods_of : Option Node → ℕ
pods_of none = 0
pods_of (some n) = n.pod_count

pub pods_on : String → List Node → ℕ
unfolding pods_of find_node
pods_on name ns = pods_of (find_node name ns)

-- The number of assignments to a node.
pub assigned_to : String → List (String × String) → ℕ
assigned_to name [] = 0
assigned_to name ((pod, node) ∷ rest) = (if str_eq node name then 1 else 0) + assigned_to name rest

pub assigned_to-append :
    (name : String) (xs ys : List (String × String))
    → assigned_to name (xs ++ ys) ≡ assigned_to name xs + assigned_to name ys
unfolding assigned_to
assigned_to-append name [] ys = omega arith
assigned_to-append name (x ∷ xs) ys = omega (arith, assigned_to-append name xs ys)

pub pods_on-append :
    (name : String) (ns : List Node) (n : Node)
    → n.pod_count ≡ 0
    → pods_on name (ns ++ n ∷ []) ≡ pods_on name ns
unfolding pods_on
pods_on-append name [] n h = ground arith
pods_on-append name (m ∷ ns) n h = ground (arith, pods_on-append name ns n h)

pub pods_on-cons :
    (k : String) (n : Node) (ns : List Node)
    → pods_on k (n ∷ ns) ≡ (if str_eq n.node_name k then n.pod_count else pods_on k ns)
unfolding pods_on
pods_on-cons k n ns = ground arith

-- The first node of the name is changed, and the others are kept.
pub update_node-cases :
    (name : String) (f : Node → Node) (n : Node) (ns ns' : List Node)
    → update_node name f (n ∷ ns) ≡ some ns'
    → ((str_eq n.node_name name ≡ true) × (ns' ≡ f n ∷ ns))
      ⊎ ((ms : List Node) × (str_eq n.node_name name ≡ false)
          × (update_node name f ns ≡ some ms)
          × (ns' ≡ n ∷ ms))
unfolding update_node
update_node-cases name f n ns ns' e = elim (Bool-cases (str_eq n.node_name name)) [
  | inl hit ↦ inl (hit, ground arith)
  | inr miss ↦ elim (Option-cases (update_node name f ns)) [
    | inl nowhere ↦ absurd (ground arith)
    | inr (ms, later) ↦ inr (ms, miss, later, ground arith)
  ]
]

-- A change of the first node of a name, seen through pod counts.
module _ (name : String) (f : Node → Node) (g : ℕ → ℕ) where
  pub pods_on-update_node :
      ((n : Node) → (f n).node_name ≡ n.node_name)
      → ((n : Node) → (f n).pod_count ≡ g n.pod_count)
      → (k : String) (ns ns' : List Node) → update_node name f ns ≡ some ns'
      → pods_on k ns' ≡ (if str_eq name k then g (pods_on k ns) else pods_on k ns)
  unfolding update_node
  pods_on-update_node same count k [] ns' e = absurd (cc)
  pods_on-update_node same count k (n ∷ ns) ns' e = elim (update_node-cases name f n ns ns' e) [
    | inl (hit, e') ↦
        rw (e', pods_on-cons k n ns, pods_on-cons k (f n) ns, same n, count n)
          (ground (arith, eq_iff n.node_name name, eq_iff n.node_name k, eq_iff name k))
    | inr (ms, miss, later, e') ↦
        rw (e', pods_on-cons k n ns, pods_on-cons k n ms)
          (ground (
            arith,
            eq_iff n.node_name name,
            eq_iff n.node_name k,
            eq_iff name k,
            pods_on-update_node same count k ns ms later,
          ))
  ]

pub length-update_node :
    (name : String) (f : Node → Node) (ns ns' : List Node)
    → update_node name f ns ≡ some ns'
    → length ns' ≡ length ns
unfolding update_node
length-update_node name f [] ns' e = absurd (cc)
length-update_node name f (n ∷ ns) ns' e = elim (update_node-cases name f n ns ns' e) [
  | inl (hit, e') ↦ rw e'
  | inr (ms, miss, later, e') ↦ rw (e', length-update_node name f ns ms later)
]

remove_taint-cases :
    (name taint : String) (n : Node) (ns ns' : List Node)
    → remove_taint name taint (n ∷ ns) ≡ some ns'
    → ((ts : List String) × (ns' ≡ record n { taints = ts } ∷ ns))
      ⊎ ((ms : List Node) × (remove_taint name taint ns ≡ some ms) × (ns' ≡ n ∷ ms))
unfolding remove_taint
remove_taint-cases name taint n ns ns' e = elim (Option-cases (remove_first taint n.taints)) [
  | inl lacks ↦ elim (Option-cases (remove_taint name taint ns)) [
    | inl nowhere ↦ absurd (ground arith)
    | inr (ms, later) ↦ inr (ms, later, ground arith)
  ]
  | inr (ts, has) ↦ elim (Option-cases (remove_taint name taint ns)) [
    | inl nowhere ↦ inl (ts, ground arith)
    | inr (ms, later) ↦ elim (Bool-cases (str_eq n.node_name name)) [
      | inl hit ↦ inl (ts, ground arith)
      | inr miss ↦ inr (ms, later, ground arith)
    ]
  ]
]

-- Taking a taint off changes no pod count.
pub pods_on-remove_taint :
    (name taint k : String) (ns ns' : List Node)
    → remove_taint name taint ns ≡ some ns'
    → (pods_on k ns' ≡ pods_on k ns) × (length ns' ≡ length ns)
unfolding remove_taint
pods_on-remove_taint name taint k [] ns' e = absurd (cc)
pods_on-remove_taint name taint k (n ∷ ns) ns' e = elim (remove_taint-cases name taint n ns ns' e) [
  | inl (ts, e') ↦
      rw (e', pods_on-cons k n ns, pods_on-cons k (record n { taints = ts }) ns) (refl, refl)
  | inr (ms, later, e') ↦
      let (same, long) = pods_on-remove_taint name taint k ns ms later in
      rw (e', pods_on-cons k n ns, pods_on-cons k n ms, same, long) (refl, refl)
]

pub take_assignment-assigned_to :
    (pod name : String) (xs rest : List (String × String))
    → take_assignment pod xs ≡ some (name, rest)
    → (k : String) → assigned_to k xs ≡ (if str_eq name k then 1 else 0) + assigned_to k rest
unfolding take_assignment assigned_to
take_assignment-assigned_to pod name [] rest e k = absurd (cc)
take_assignment-assigned_to pod name ((q, m) ∷ xs) rest e k =
    elim (Option-cases (take_assignment pod xs)) [
      | inl nowhere ↦ ground arith
      | inr ((m', others), later) ↦
          ground (arith, take_assignment-assigned_to pod m' xs others later k)
    ]

pub take_assignment-length :
    (pod name : String) (xs rest : List (String × String))
    → take_assignment pod xs ≡ some (name, rest)
    → length xs ≡ suc (length rest)
unfolding take_assignment
take_assignment-length pod name [] rest e = absurd (cc)
take_assignment-length pod name ((q, m) ∷ xs) rest e =
    elim (Option-cases (take_assignment pod xs)) [
      | inl nowhere ↦ ground arith
      | inr ((m', others), later) ↦ ground (arith, take_assignment-length pod m' xs others later)
    ]

-- What `bind_pod` does: it fails and keeps nodes and assignments, or counts the pod and assigns it.
pub bind_pod-cases :
    (s : Scheduler) (pod name : String)
    → (bind_pod s pod name ≡ (with_capacity s, error))
      ⊎ ((ns : List Node) × (update_node name one_more s.nodes ≡ some ns)
          × (length s.assigned < (with_capacity s).assignment_capacity)
          × (bind_pod s pod name ≡ (assign (with_capacity s) pod name ns, ok)))
unfolding bind_pod
bind_pod-cases s pod name =
    elim (Bool-cases (leb (with_capacity s).assignment_capacity (length s.assigned))) [
      | inl full ↦ inl (rw full)
      | inr room ↦ elim (Option-cases (update_node name one_more s.nodes)) [
        | inl nowhere ↦ inl (rw (room, nowhere))
        | inr (ns, there) ↦ inr (ns, there, ground (arith, room), rw (room, there))
      ]
    ]

-- What `evict_pod` does: it fails and changes nothing, or drops the pod's first assignment and counts
-- one pod fewer on its node.
pub evict_pod-cases :
    (s : Scheduler) (pod : String)
    → (evict_pod s pod ≡ (s, error))
      ⊎ ((name : String) × (rest : List (String × String)) × (take_assignment pod s.assigned
            ≡ some (name, rest))
          × (evict_pod s pod ≡ (
            record s {
              nodes = keep_or s.nodes (update_node name one_less s.nodes);
              assigned = rest;
            },
            ok,
          )))
unfolding evict_pod
evict_pod-cases s pod = elim (Option-cases (take_assignment pod s.assigned)) [
  | inl nowhere ↦ inl (rw (nowhere, evict_pod))
  | inr ((name, rest), there) ↦ inr (name, rest, there, rw (there, evict_pod))
]

pub pods_on-nil : (k : String) → pods_on k [] ≡ assigned_to k []
unfolding pods_on assigned_to
pods_on-nil k = refl

pub assigned_to-one :
    (k pod name : String) → assigned_to k ((pod, name) ∷ []) ≡ (if str_eq name k then 1 else 0)
unfolding assigned_to
assigned_to-one k pod name = omega arith

-- A name that no node bears counts no pod.
pub pods_on-nowhere :
    (name : String) (f : Node → Node) (ns : List Node)
    → update_node name f ns ≡ none
    → pods_on name ns ≡ 0
unfolding pods_on update_node
pods_on-nowhere name f [] e = refl
pods_on-nowhere name f (n ∷ ns) e = elim (Option-cases (update_node name f ns)) [
  | inl nowhere ↦ ground (arith, pods_on-nowhere name f ns nowhere)
  | inr (ms, there) ↦ absurd (ground arith)
]
