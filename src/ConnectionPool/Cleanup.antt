-- ===== src/ConnectionPool/Cleanup.antt =====
-- The cleanup of idle connections of sirah/internal/optimization/connection_pool.c.
use sirah_c.Prelude.{
  ℕ, zero, suc, ◌+◌, ◌≤◌, ◌≡◌, ◌≢◌, ◌⊎◌, ◌↔◌, inl, inr, refl, ap, sym, subst, ◌∙◌, Bool, true,
  false, not, Option, none, some, List, [], ◌∷◌, length, get_elem?, filter, arith, Bool-cases,
  Option-cases,
}
use sirah_c.Table.{find}
use sirah_c.Table.Laws.{IsUnique}
use sirah_c.Table.Filters.{keep_if, find-filter, filter-IsUnique}
use sirah_c.ConnectionPool.{
  Connection, Pool, id_key, connection_id, is_expired, remove_at, cleanup_from, cleanup_idle,
}
use sirah_c.ConnectionPool.Leases.{IsPooled}

abbrev put_front : Connection → List Connection × ℕ → List Connection × ℕ
put_front c r = (c ∷ r.0, r.1)

-- The loop does not come back to the connections before its index.
cleanup_from-cons :
    (now timeout rounds i : ℕ) (c : Connection) (cs : List Connection)
    → cleanup_from now timeout rounds (suc i) (c ∷ cs)
      ≡ put_front c (cleanup_from now timeout rounds i cs)
unfolding cleanup_from remove_at
cleanup_from-cons now timeout zero i c cs = refl
cleanup_from-cons now timeout (suc rounds) i c cs = elim (Option-cases (get_elem? cs i)) [
  | inl past ↦ rw past refl
  | inr (x, there) ↦ elim (Bool-cases (is_expired now timeout x)) [
    | inl old ↦
        rw (there, old)
          (ap (λ r. (r.0, r.1 + 1)) (cleanup_from-cons now timeout rounds i c (remove_at i cs)))
    | inr kept ↦ rw (there, kept) (cleanup_from-cons now timeout rounds (suc i) c cs)
  ]
]

-- With as many rounds as connections, the loop leaves those that have not expired.
cleanup_from-filter :
    (now timeout : ℕ) (cs : List Connection)
    → let kept = filter (λ c. not (is_expired now timeout c)) cs in
      let done = cleanup_from now timeout (length cs) 0 cs in
      (done.0 ≡ kept) × (done.1 + length done.0 ≡ length cs)
unfolding cleanup_from remove_at
cleanup_from-filter now timeout [] = (refl, omega arith)
cleanup_from-filter now timeout (c ∷ cs) =
    let (left, counted) = cleanup_from-filter now timeout cs in
    elim (Bool-cases (is_expired now timeout c)) [
      | inl old ↦ rw old (left, omega (arith, counted))
      | inr kept ↦
          rw (kept, cleanup_from-cons now timeout (length cs) 0 c cs)
            (ap (λ ks. c ∷ ks) left, omega (arith, counted))
    ]

-- In use, or last used no longer ago than the timeout.
abbrev pub IsKept : ℕ → ℕ → Connection → Type 0
IsKept now timeout c = (c.in_use ≡ true) ⊎ (now ≤ c.last_used_at + timeout)

young-IsKept :
    (now timeout : ℕ) (c : Connection) → is_expired now timeout c ≡ false → IsKept now timeout c
young-IsKept now timeout c young = ground arith

stays : (now timeout : ℕ) (c : Connection) → IsKept now timeout c → is_expired now timeout c ≢ true
stays now timeout c k old = ground arith

keep_if-IsKept_iff :
    (now timeout : ℕ) (o : Option Connection) (c : Connection)
    → (keep_if (λ d. not (is_expired now timeout d)) o ≡ some c)
      ↔ ((o ≡ some c) × IsKept now timeout c)
keep_if-IsKept_iff now timeout none c =
    (λ e. absurd (ground arith), λ k. absurd (ground (arith, k.0)))
keep_if-IsKept_iff now timeout (some d) c = elim (Bool-cases (is_expired now timeout d)) [
  | inl old ↦ rw old (
    λ e. absurd (ground arith),
    λ k.
        let same : c ≡ d = ground (arith, k.0) in
        absurd (stays now timeout d (subst (IsKept now timeout) same k.1) old),
  )
  | inr young ↦ rw young (
    λ e.
        let same : d ≡ c = ground arith in
        (e, subst (IsKept now timeout) same (young-IsKept now timeout d young)),
    λ k. k.0,
  )
]

-- A cleanup of a pool whose connections have different ids and are not more than the maximum keeps it so.
-- An id gives a connection afterwards exactly when it gave that one before and the connection is in use
-- or was last used no longer ago than the timeout. The answer is the number of connections that go.
pub cleanup_idle_lem :
    (p : Pool) (now : ℕ)
    → IsPooled p
    → IsPooled (cleanup_idle p now).0
      × ((id : ℕ) (c : Connection)
          → (find connection_id id (cleanup_idle p now).0.connections ≡ some c) ↔ (
              (find connection_id id p.connections ≡ some c) × IsKept now p.idle_timeout_seconds c))
      × ((cleanup_idle p now).1 + length (cleanup_idle p now).0.connections ≡ length p.connections)
unfolding cleanup_idle
cleanup_idle_lem p now pooled =
    let kept : Connection → Bool = λ c. not (is_expired now p.idle_timeout_seconds c) in
    let (left, counted) = cleanup_from-filter now p.idle_timeout_seconds p.connections in
    let unique : IsUnique connection_id (filter kept p.connections) =
      filter-IsUnique connection_id kept p.connections pooled.unique in
    (
      record {
        unique = subst (IsUnique connection_id) (sym left) unique;
        few = omega (arith, counted, pooled.few);
      },
      λ id c.
          let lookup =
            ap (find connection_id id) left
            ∙ find-filter connection_id kept id p.connections pooled.unique in
          let (to, from) =
            keep_if-IsKept_iff now p.idle_timeout_seconds (find connection_id id p.connections) c in
          (λ e. to (sym lookup ∙ e), λ k. lookup ∙ from k),
      counted,
    )
