-- ===== src/StatefulSet/Order.antt =====
-- Which pods of a stateful set of sirah/internal/statefulset/statefulset.c are created and deleted next.
use sirah_c.Prelude.{
  ℕ, zero, suc, ◌+◌, ◌≤◌, ◌<◌, ◌≡◌, ◌⊎◌, inl, inr, refl, subst, Bool, true, false, not, ◌&&◌,
  Option, none, some, arith, Bool-cases, ℤ, pos, negsuc, at_least,
}
use sirah_c.StatefulSet.{StatefulSet}
use sirah_c.StatefulSet.Updates.{
  is_next, first_next, count, next_to_create, last_alive, is_terminated,
}

-- The lowest of so many ordinals that passes the test, or none where none does.
abbrev pub IsLowest : (ℕ → Bool) → ℕ → ℕ → Option ℕ → Type 0
IsLowest p a b none = (i : ℕ) → a ≤ i → i < b → p i ≡ false
IsLowest p a b (some i) = (a ≤ i) × (i < b) × (p i ≡ true) × ((j : ℕ) → a ≤ j → j < i → p j ≡ false)

le-cases : (a i : ℕ) → a ≤ i → (a ≡ i) ⊎ (a + 1 ≤ i)
le-cases a i h = ground arith

IsLowest-step :
    (p : ℕ → Bool) (a b : ℕ) (o : Option ℕ)
    → p a ≡ false
    → IsLowest p (a + 1) b o
    → IsLowest p a b o
IsLowest-step p a b none miss low = λ i from to. elim (le-cases a i from) [
  | inl same ↦ subst (λ x. p x ≡ false) same miss
  | inr later ↦ low i later to
]
IsLowest-step p a b (some k) miss low = (
  omega (arith, low.0),
  low.1,
  low.2,
  λ j from to. elim (le-cases a j from) [
    | inl same ↦ subst (λ x. p x ≡ false) same miss
    | inr later ↦ low.3 j later to
  ],
)

first_next-IsLowest :
    (s : StatefulSet) (rounds i : ℕ) → IsLowest (is_next s) i (i + rounds) (first_next s rounds i)
unfolding first_next
first_next-IsLowest s zero i = λ j from to. absurd (omega arith)
first_next-IsLowest s (suc rounds) i = elim (Bool-cases (is_next s i)) [
  | inl hit ↦ rw hit (omega arith, omega arith, hit, λ j from to. absurd (omega arith))
  | inr miss ↦
      let same : i + 1 + rounds ≡ i + suc rounds = omega arith in
      let later =
        subst (λ b. IsLowest (is_next s) (i + 1) b (first_next s rounds (i + 1))) same
          (first_next-IsLowest s rounds (i + 1)) in
      rw miss
        (IsLowest-step (is_next s) i (i + suc rounds) (first_next s rounds (i + 1)) miss later)
]

pub next_to_create-IsLowest :
    (s : StatefulSet) → IsLowest (is_next s) 0 (count s.spec.replicas) (next_to_create s)
next_to_create-IsLowest s =
    let same : 0 + count s.spec.replicas ≡ count s.spec.replicas = omega arith in
    subst (λ b. IsLowest (is_next s) 0 b (next_to_create s)) same
      (first_next-IsLowest s (count s.spec.replicas) 0)

-- An ordinal beyond the replicas whose pod has not been deleted.
abbrev pub is_surplus : StatefulSet → ℕ → Bool
is_surplus s i = at_least i s.spec.replicas && not (is_terminated (s.status.pod_ordinals i).state)

abbrev pub IsHighest : (ℕ → Bool) → ℕ → Option ℕ → Type 0
IsHighest p n none = (i : ℕ) → i < n → p i ≡ false
IsHighest p n (some i) = (i < n) × (p i ≡ true) × ((j : ℕ) → i < j → j < n → p j ≡ false)

lt_suc-cases : (i n : ℕ) → i < suc n → (n ≡ i) ⊎ (i < n)
lt_suc-cases i n h = ground arith

IsHighest-step :
    (p : ℕ → Bool) (n : ℕ) (o : Option ℕ) → p n ≡ false → IsHighest p n o → IsHighest p (suc n) o
IsHighest-step p n none miss high = λ i to. elim (lt_suc-cases i n to) [
  | inl same ↦ subst (λ x. p x ≡ false) same miss
  | inr before ↦ high i before
]
IsHighest-step p n (some k) miss high = (
  omega (arith, high.0),
  high.1,
  λ j from to. elim (lt_suc-cases j n to) [
    | inl same ↦ subst (λ x. p x ≡ false) same miss
    | inr before ↦ high.2 j from before
  ],
)

below_none :
    (s : StatefulSet) (i : ℕ) (q : ℤ)
    → at_least i q ≡ false
    → (j : ℕ) → j < suc i
    → at_least j q ≡ false
below_none s i (pos r) short j to = ground arith
below_none s i (negsuc r) short j to = absurd (ground arith)

last_alive-IsHighest : (s : StatefulSet) (n : ℕ) → IsHighest (is_surplus s) n (last_alive s n)
unfolding last_alive
last_alive-IsHighest s zero = λ j to. absurd (omega arith)
last_alive-IsHighest s (suc i) = elim (Bool-cases (at_least i s.spec.replicas)) [
  | inr short ↦ rw short (λ j to. rw (below_none s i s.spec.replicas short j to) refl)
  | inl beyond ↦ elim (Bool-cases (is_terminated (s.status.pod_ordinals i).state)) [
    | inl gone ↦
        rw (beyond, gone)
          (IsHighest-step (is_surplus s) i (last_alive s i) (rw (beyond, gone) refl)
            (last_alive-IsHighest s i))
    | inr alive ↦
        rw (beyond, alive) (omega arith, rw (beyond, alive) refl, λ j from to. absurd (omega arith))
  ]
]

-- The ordinal that is deleted next is the highest one that the replicas do not cover and whose pod has
-- not been deleted, and there is none only where no ordinal is so.
pub last_alive-IsLast :
    (s : StatefulSet) → IsHighest (is_surplus s) s.status.ordinals (last_alive s s.status.ordinals)
last_alive-IsLast s = last_alive-IsHighest s s.status.ordinals
