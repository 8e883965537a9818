-- ===== src/StatefulSet/Rollout.antt =====
-- The ordered start of the pods of a stateful set of sirah/internal/statefulset/statefulset.c.
use sirah_c.Prelude.{
  ℕ, zero, suc, ◌+◌, ◌≤◌, ◌<◌, ◌≡◌, ◌⊎◌, inl, inr, refl, sym, ap, subst, ◌∙◌, Bool, true, false,
  Option, none, some, String, arith, Bool-cases, ltb, leb, ◌==◌, pos,
}
use sirah_c.StatefulSet.{StatefulSet, SetStatus, ordered_ready, running}
use sirah_c.StatefulSet.Pods.{on_status, with_state, with_ready, extended}
use sirah_c.StatefulSet.Updates.{is_next, count, next_to_create, after_ready}
use sirah_c.StatefulSet.Order.{IsLowest, next_to_create-IsLowest}

-- The pod of an ordinal starts and becomes ready.
abbrev pub started : ℕ → StatefulSet → StatefulSet
started i s = on_status (with_ready i true) (on_status (with_state s.spec.name i running) s)

abbrev pub start_next : Option ℕ → StatefulSet → StatefulSet
start_next none s = s
start_next (some i) s = started i s

-- Turns of a controller that starts the next pod.
unfoldable pub turns : ℕ → StatefulSet → StatefulSet
turns zero s = s
turns (suc n) s = turns n (start_next (next_to_create s) s)

-- The first pods are running and ready, and there are no others.
pub record HasFirst (k : ℕ) (s : StatefulSet) : Type 0 where
  pub ordinals : s.status.ordinals ≡ k
  pub ready_ordinals : s.status.ready_ordinals ≡ k
  pub pods :
      (i : ℕ)
      → i < k
      → ((s.status.pod_ordinals i).state ≡ running) × ((s.status.pod_ordinals i).ready ≡ true)

true-false : {b : Bool} → b ≡ true → b ≡ false → ⊥
true-false t f = cc

lt-cases : (i k : ℕ) → (i < k) ⊎ (i ≡ k) ⊎ (k < i)
lt-cases i k = ground arith

needed_allowed :
    (s : StatefulSet) (k : ℕ)
    → ltb k s.status.ordinals ≡ false
    → s.spec.pod_management_policy ≡ ordered_ready
    → after_ready s.status k ≡ true
    → is_next s k ≡ true
needed_allowed s k beyond ordered allowed = rw (beyond, ordered, allowed) refl

unneeded :
    (s : StatefulSet) (j : ℕ)
    → ltb j s.status.ordinals ≡ true
    → (s.status.pod_ordinals j).state ≡ running
    → is_next s j ≡ false
unneeded s j within up = rw (within, up) refl

lowest_unique :
    (p : ℕ → Bool) (b k : ℕ) (o : Option ℕ)
    → IsLowest p 0 b o
    → k < b
    → p k ≡ true
    → ((j : ℕ) → j < k → p j ≡ false)
    → o ≡ some k
lowest_unique p b k none low within hit before =
    let miss = low k (omega arith) within in absurd (true-false hit miss)
lowest_unique p b k (some i) low within hit before = elim (lt-cases i k) [
  | inl lower ↦ absurd (true-false low.2 (before i lower))
  | inr (inl same) ↦ ap some same
  | inr (inr higher) ↦ absurd (true-false hit (low.3 k (omega arith) higher))
]

after_ready-HasFirst : (k : ℕ) (s : StatefulSet) → HasFirst k s → after_ready s.status k ≡ true
after_ready-HasFirst zero s h = refl
after_ready-HasFirst (suc k) s h = (h.pods k (omega arith)).1

next_to_create-HasFirst :
    (k n : ℕ) (s : StatefulSet)
    → HasFirst k s
    → s.spec.pod_management_policy ≡ ordered_ready
    → s.spec.replicas ≡ pos n
    → k < n
    → next_to_create s ≡ some k
next_to_create-HasFirst k n s h ordered replicas short =
    lowest_unique (is_next s) (count s.spec.replicas) k (next_to_create s)
      (next_to_create-IsLowest s) (subst (λ b. k < b) (sym (ap count replicas)) short)
      (needed_allowed s k (ground (arith, h.ordinals)) ordered (after_ready-HasFirst k s h))
      (λ j to. unneeded s j (ground (arith, h.ordinals)) (h.pods j to).0)

extended-ordinals :
    (name : String) (k : ℕ) (s : SetStatus) → s.ordinals ≡ k → (extended name k s).ordinals ≡ k + 1
extended-ordinals name k s full =
    let reaches : leb s.ordinals k ≡ true = ground arith in rw reaches refl

extended-ready_ordinals :
    (name : String) (k : ℕ) (s : SetStatus) → (extended name k s).ready_ordinals ≡ s.ready_ordinals
extended-ready_ordinals name k s = elim (Bool-cases (leb s.ordinals k)) [
  | inl beyond ↦ rw beyond refl
  | inr within ↦ rw within refl
]

extended-pod_ordinals :
    (name : String) (k i : ℕ) (s : SetStatus)
    → i < s.ordinals
    → (extended name k s).pod_ordinals i ≡ s.pod_ordinals i
extended-pod_ordinals name k i s before =
    let kept : leb s.ordinals i ≡ false = ground arith in
    elim (Bool-cases (leb s.ordinals k)) [
      | inl beyond ↦ rw (beyond, kept) refl
      | inr within ↦ rw within refl
    ]

started-HasFirst : (k : ℕ) (s : StatefulSet) → HasFirst k s → HasFirst (k + 1) (started k s)
started-HasFirst k s h = record {
  ordinals = extended-ordinals s.spec.name k s.status h.ordinals;
  ready_ordinals =
      let same : (extended s.spec.name k s.status).ready_ordinals ≡ k =
        extended-ready_ordinals s.spec.name k s.status ∙ h.ready_ordinals in
      rw same (ground arith);
  pods = λ i to. elim (Bool-cases (i == k)) [
    | inl hit ↦ rw hit (refl, refl)
    | inr miss ↦
        let before : i < k = ground arith in
        rw
          (
            miss,
            extended-pod_ordinals s.spec.name k i s.status
                (subst (λ n. i < n) (sym h.ordinals) before),
          )
          (h.pods i before)
  ];
}

-- Where the first pods of a set that is started in order are running and ready, and there are no others,
-- so are as many more after as many turns, up to the number of replicas: in each turn the pod of the
-- next ordinal is started.
pub turns-HasFirst :
    (m k n : ℕ) (s : StatefulSet)
    → HasFirst k s
    → s.spec.pod_management_policy ≡ ordered_ready
    → s.spec.replicas ≡ pos n
    → k + m ≤ n
    → HasFirst (k + m) (turns m s)
unfolding turns
turns-HasFirst zero k n s h ordered replicas within =
    let same : k ≡ k + 0 = omega arith in subst (λ i. HasFirst i s) same h
turns-HasFirst (suc m) k n s h ordered replicas within =
    let next = next_to_create-HasFirst k n s h ordered replicas (omega arith) in
    let later =
      turns-HasFirst m (k + 1) n (started k s) (started-HasFirst k s h) ordered replicas
        (omega arith) in
    let same : k + 1 + m ≡ k + suc m = omega arith in
    rw next (subst (λ i. HasFirst i (turns m (started k s))) same later)
