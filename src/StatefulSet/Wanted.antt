-- ===== src/StatefulSet/Wanted.antt =====
-- Which pod of a stateful set of sirah/internal/statefulset/statefulset.c is asked for next.
use sirah_c.Prelude.{
  ℕ, zero, suc, ◌≤◌, ◌<◌, ◌≡◌, ◌⊎◌, inl, inr, refl, true, false, Option, none, some, String, ltb,
  if_elim, arith, Bool-cases,
}
use sirah_c.StatefulSet.{
  ManagementPolicy, ordered_ready, parallel, rolling_update, OrdinalState, pending, failed,
  SetStatus, StatefulSet, Manager, get,
}
use sirah_c.StatefulSet.Updates.{
  waits, needs_pod, after_ready, is_allowed, is_next, count, next_to_create,
  get_next_ordinal_to_create,
}
use sirah_c.StatefulSet.Order.{IsLowest, next_to_create-IsLowest}

-- The pod of the ordinal is not recorded, or pending, or failed; and where pods are created in order, it is
-- the first one or the pod before it is ready.
pub record IsWanted (s : StatefulSet) (i : ℕ) : Type 0 where
  pub missing :
      (s.status.ordinals ≤ i)
      ⊎ (((s.status.pod_ordinals i).state ≡ pending) ⊎ ((s.status.pod_ordinals i).state ≡ failed))
  pub in_turn :
      s.spec.pod_management_policy ≡ ordered_ready
      → (i ≡ 0) ⊎ ((j : ℕ) × (i ≡ suc j) × ((s.status.pod_ordinals j).ready ≡ true))

waits→state : (o : OrdinalState) → waits o ≡ true → (o ≡ pending) ⊎ (o ≡ failed)
waits→state o h = ground arith

state→waits : (o : OrdinalState) → (o ≡ pending) ⊎ (o ≡ failed) → waits o ≡ true
state→waits o h = ground arith

next-missing :
    (st : SetStatus) (i : ℕ)
    → needs_pod st i ≡ true
    → (st.ordinals ≤ i)
      ⊎ (((st.pod_ordinals i).state ≡ pending) ⊎ ((st.pod_ordinals i).state ≡ failed))
next-missing st i h = elim (Bool-cases (ltb i st.ordinals)) [
  | inr unknown ↦ inl (ground arith)
  | inl known ↦
      let waiting : waits (st.pod_ordinals i).state ≡ true = ground arith in
      inr (waits→state (st.pod_ordinals i).state waiting)
]

missing-next :
    (st : SetStatus) (i : ℕ)
    → (st.ordinals ≤ i)
      ⊎ (((st.pod_ordinals i).state ≡ pending) ⊎ ((st.pod_ordinals i).state ≡ failed))
    → needs_pod st i ≡ true
missing-next st i (inl unknown) = ground arith
missing-next st i (inr waiting) =
    if_elim (λ b. b ≡ true) (ltb i st.ordinals)
      (λ known. state→waits (st.pod_ordinals i).state waiting) (λ unknown. refl)

-- The pod before is ready, or there is none.
abbrev IsInTurn : SetStatus → ℕ → Type 0
IsInTurn st i = (i ≡ 0) ⊎ ((j : ℕ) × (i ≡ suc j) × ((st.pod_ordinals j).ready ≡ true))

after_ready-IsInTurn : (st : SetStatus) (i : ℕ) → after_ready st i ≡ true → IsInTurn st i
after_ready-IsInTurn st zero h = inl refl
after_ready-IsInTurn st (suc i) h = inr (i, refl, h)

IsInTurn-after_ready : (st : SetStatus) (i : ℕ) → IsInTurn st i → after_ready st i ≡ true
IsInTurn-after_ready st i (inl first) = rw first refl
IsInTurn-after_ready st i (inr (j, after, ready')) = rw after ready'

allowed-IsInTurn :
    (p : ManagementPolicy) (st : SetStatus) (i : ℕ)
    → is_allowed p st i ≡ true
    → p ≡ ordered_ready
    → IsInTurn st i
allowed-IsInTurn ordered_ready st i h ordered = after_ready-IsInTurn st i h
allowed-IsInTurn parallel st i h ordered = absurd (ground arith)
allowed-IsInTurn rolling_update st i h ordered = absurd (ground arith)

IsInTurn-allowed :
    (p : ManagementPolicy) (st : SetStatus) (i : ℕ)
    → (p ≡ ordered_ready → IsInTurn st i)
    → is_allowed p st i ≡ true
IsInTurn-allowed ordered_ready st i h = IsInTurn-after_ready st i (h refl)
IsInTurn-allowed parallel st i h = refl
IsInTurn-allowed rolling_update st i h = refl

next-IsWanted : (s : StatefulSet) (i : ℕ) → is_next s i ≡ true → IsWanted s i
next-IsWanted s i h =
    let needed : needs_pod s.status i ≡ true = ground arith in
    let allowed : is_allowed s.spec.pod_management_policy s.status i ≡ true = ground arith in
    record {
      missing = next-missing s.status i needed;
      in_turn = allowed-IsInTurn s.spec.pod_management_policy s.status i allowed;
    }

unwanted : (s : StatefulSet) (i : ℕ) → is_next s i ≡ false → ¬ (IsWanted s i)
unwanted s i h w =
    let needed = missing-next s.status i w.missing in
    let allowed = IsInTurn-allowed s.spec.pod_management_policy s.status i w.in_turn in ground arith

-- The lowest ordinal below a number that is wanted, or none where none is.
abbrev pub IsFirstWanted : StatefulSet → ℕ → Option ℕ → Type 0
IsFirstWanted s n none = (i : ℕ) → i < n → ¬ (IsWanted s i)
IsFirstWanted s n (some i) = (i < n) × IsWanted s i × ((j : ℕ) → j < i → ¬ (IsWanted s j))

lowest-IsFirstWanted :
    (s : StatefulSet) (n : ℕ) (o : Option ℕ) → IsLowest (is_next s) 0 n o → IsFirstWanted s n o
lowest-IsFirstWanted s n none low = λ i to. unwanted s i (low i (omega arith) to)
lowest-IsFirstWanted s n (some i) low =
    (low.1, next-IsWanted s i low.2, λ j to. unwanted s j (low.3 j (omega arith) to))

-- For a stateful set that is in the table, the ordinal that is created next is the lowest one below the
-- replicas whose pod is not recorded, pending or failed and, where pods are created in order, is the
-- first or comes after a ready one; and there is none only where no ordinal is so.
pub get_next_ordinal_to_create-IsFirstWanted :
    (m : Manager) (namespace name : String) (s : StatefulSet)
    → get m namespace name ≡ some s
    → (o : Option ℕ) × (get_next_ordinal_to_create m namespace name ≡ some o)
      × IsFirstWanted s (count s.spec.replicas) o
unfolding get_next_ordinal_to_create
get_next_ordinal_to_create-IsFirstWanted m namespace name s there = (
  next_to_create s,
  rw there refl,
  lowest-IsFirstWanted s (count s.spec.replicas) (next_to_create s) (next_to_create-IsLowest s),
)
