-- ===== src/ConnectionPool/Leases.antt =====
-- Whom a connection of sirah/internal/optimization/connection_pool.c belongs to.
use sirah_c.Prelude.{
  ℕ, ◌≤◌, ◌<◌, ◌≡◌, ◌⊎◌, inl, inr, refl, sym, subst, ◌∙◌, Bool, true, false, not, Option, none,
  some, List, [], ◌∷◌, ◌++◌, String, str_eq, eq_iff, ltb, leb, ◌==◌, ==_iff, if◌then◌else◌, if_elim,
  length, length-append, arith, Bool-cases,
}
use sirah_c.Table.{find}
use sirah_c.Table.Laws.{IsUnique, Updated, cons-Updated, head-Updated, append-Updated}
use sirah_c.ConnectionPool.{
  Connection, Pool, id_key, connection_id, is_idle_to, taken, take_idle, new_connection, connect,
  reuse_or, acquire,
}

-- A table whose connection of one id is now taken for the remote end, with the others as they were.
pub record IsLeased (remote_ip : String) (remote_port id : ℕ) (cs cs' : List Connection)
    : Type 0 where
  pub connection : Connection
  pub in_use : connection.in_use ≡ true
  pub ip : connection.remote_ip ≡ remote_ip
  pub port : connection.remote_port ≡ remote_port
  pub updated : Updated connection_id id (some connection) cs cs'

idle-cases :
    (remote_ip : String) (remote_port : ℕ) (c : Connection)
    → is_idle_to remote_ip remote_port c ≡ true
    → (c.in_use ≡ false) × (c.remote_ip ≡ remote_ip) × (c.remote_port ≡ remote_port)
idle-cases remote_ip remote_port c idle =
    let ip : str_eq c.remote_ip remote_ip ≡ true = ground arith in
    (ground arith, (eq_iff c.remote_ip remote_ip).0 ip, ground arith)

different_ids :
    (c x : Connection) (cs : List Connection) (id : ℕ)
    → find connection_id c.id cs ≡ none
    → find connection_id id cs ≡ some x
    → (c.id == id) ≡ false
different_ids c x cs id alone there = elim (Bool-cases (c.id == id)) [
  | inl same ↦
      let at_id : find connection_id id cs ≡ none =
        subst (λ i. find connection_id i cs ≡ none) ((==_iff c.id id).0 same) alone in
      let clash : none ≡ some x = sym at_id ∙ there in absurd (ground arith)
  | inr other ↦ other
]

take_idle-cases :
    (remote_ip : String) (remote_port now : ℕ) (cs : List Connection)
    → IsUnique connection_id cs
    → (take_idle remote_ip remote_port now cs ≡ none)
      ⊎ ((id : ℕ) × (cs' : List Connection) × (c : Connection) × (take_idle remote_ip remote_port
              now cs
            ≡ some (id, cs'))
          × (length cs ≡ length cs')
          × (find connection_id id cs ≡ some c)
          × (c.in_use ≡ false)
          × IsLeased remote_ip remote_port id cs cs')
unfolding take_idle find
take_idle-cases remote_ip remote_port now [] u = inl refl
take_idle-cases remote_ip remote_port now (c ∷ cs) u =
    elim (Bool-cases (is_idle_to remote_ip remote_port c)) [
      | inl idle ↦
          let facts = idle-cases remote_ip remote_port c idle in
          let self : (c.id == c.id) ≡ true = (==_iff c.id c.id).1 refl in
          inr (
            c.id,
            taken now c ∷ cs,
            c,
            rw idle refl,
            refl,
            rw self refl,
            facts.0,
            record {
              connection = taken now c;
              in_use = refl;
              ip = facts.1;
              port = facts.2;
              updated = head-Updated connection_id c.id c (taken now c) cs u self refl;
            },
          )
      | inr busy ↦ elim (take_idle-cases remote_ip remote_port now cs u.1) [
        | inl nothing ↦ inl (rw (busy, nothing) refl)
        | inr (id, cs', x, found, count, there, unused, lease) ↦
            let other = different_ids c x cs id u.0 there in
            inr (
              id,
              c ∷ cs',
              x,
              rw (busy, found) refl,
              omega (arith, count),
              rw other there,
              unused,
              record {
                connection = lease.connection;
                in_use = lease.in_use;
                ip = lease.ip;
                port = lease.port;
                updated =
                    cons-Updated connection_id id (some lease.connection) c cs cs' u.0 other
                      lease.updated;
              },
            )
      ]
    ]

-- A pool whose connections have different ids and are not more than the maximum.
pub record IsPooled (p : Pool) : Type 0 where
  pub unique : IsUnique connection_id p.connections
  pub few : length p.connections ≤ p.max_connections

-- What an answer of the pool promises, where it is a connection.
abbrev pub IsExclusive : Pool → String → ℕ → Pool × Option ℕ → Type 0
IsExclusive p remote_ip remote_port r =
    (id : ℕ)
    → r.1 ≡ some id
    → ((find connection_id id p.connections ≡ none)
        ⊎ ((c : Connection) × (find connection_id id p.connections ≡ some c) × (c.in_use ≡ false)))
      × IsLeased remote_ip remote_port id p.connections r.0.connections
      × IsPooled r.0

refused-IsExclusive :
    (p : Pool) (remote_ip : String) (remote_port : ℕ)
    → IsExclusive p remote_ip remote_port (p, none)
refused-IsExclusive p remote_ip remote_port id h = absurd (ground arith)

connect-IsExclusive :
    (p : Pool) (remote_ip : String) (remote_port now : ℕ) (allocated : Option ℕ) (made : Bool)
    → IsUnique connection_id p.connections
    → length p.connections < p.max_connections
    → ((fresh : ℕ) → allocated ≡ some fresh → find connection_id fresh p.connections ≡ none)
    → IsExclusive p remote_ip remote_port (connect p remote_ip remote_port now allocated made)
connect-IsExclusive p remote_ip remote_port now none made u room fresh id h =
    refused-IsExclusive p remote_ip remote_port id h
connect-IsExclusive p remote_ip remote_port now (some i) false u room fresh id h =
    refused-IsExclusive p remote_ip remote_port id h
connect-IsExclusive p remote_ip remote_port now (some i) true u room fresh id h =
    let same : i ≡ id = ground arith in
    let c = new_connection i remote_ip remote_port now in
    let new = append-Updated connection_id c p.connections u (fresh i refl) in
    (
      inl (subst (λ x. find connection_id x p.connections ≡ none) same (fresh i refl)),
      subst (λ x. IsLeased remote_ip remote_port x p.connections (p.connections ++ c ∷ [])) same
          (record { connection = c; in_use = refl; ip = refl; port = refl; updated = new }),
      record { unique = new.unique; few = ground (arith, length-append p.connections (c ∷ [])) },
    )

reuse-IsExclusive :
    (p : Pool) (remote_ip : String) (remote_port now : ℕ) (other : Pool × Option ℕ)
    → IsPooled p
    → IsExclusive p remote_ip remote_port other
    → IsExclusive p remote_ip remote_port
        (reuse_or p other (take_idle remote_ip remote_port now p.connections))
reuse-IsExclusive p remote_ip remote_port now other pooled otherwise =
    elim (take_idle-cases remote_ip remote_port now p.connections pooled.unique) [
      | inl nothing ↦ rw nothing otherwise
      | inr (i, cs, c, found, count, there, unused, lease) ↦ rw found (λ id h.
          let same : i ≡ id = ground arith in
          (
            inr (c, subst (λ x. find connection_id x p.connections ≡ some c) same there, unused),
            subst (λ x. IsLeased remote_ip remote_port x p.connections cs) same lease,
            record { unique = lease.updated.unique; few = omega (arith, count, pooled.few) },
          ))
    ]

acquire-IsExclusive :
    (p : Pool) (remote_ip : String) (remote_port now : ℕ) (allocated : Option ℕ) (made : Bool)
    → IsPooled p
    → ((fresh : ℕ) → allocated ≡ some fresh → find connection_id fresh p.connections ≡ none)
    → IsExclusive p remote_ip remote_port (acquire p remote_ip remote_port now allocated made)
unfolding acquire
acquire-IsExclusive p remote_ip remote_port now allocated made pooled fresh =
    let promise = IsExclusive p remote_ip remote_port in
    let refused = refused-IsExclusive p remote_ip remote_port in
    if_elim promise (leb remote_port 0) (λ no_port. refused)
      (λ port.
        if_elim promise (not p.enabled) (λ disabled. refused)
          (λ enabled.
            reuse-IsExclusive p remote_ip remote_port now
              (if ltb (length p.connections) p.max_connections
                then connect p remote_ip remote_port now allocated made
                else (p, none))
              pooled
              (if_elim promise (ltb (length p.connections) p.max_connections)
                (λ room.
                  connect-IsExclusive p remote_ip remote_port now allocated made pooled.unique
                    (ground arith) fresh)
                (λ full. refused))))

-- In a pool whose connections have different ids and are not more than the maximum, and with a pointer
-- from `calloc`, if any, that no connection of the pool has, what is handed out was in no one's hands: a
-- connection that is not in the pool, or one in it that was not in use. It is in use afterwards, for the
-- remote end that was asked for, every other connection is as before, and the pool keeps different ids
-- and the maximum.
pub acquire_exclusive :
    (p : Pool) (remote_ip : String) (remote_port now id : ℕ) (allocated : Option ℕ) (made : Bool)
    → IsPooled p
    → ((fresh : ℕ) → allocated ≡ some fresh → find connection_id fresh p.connections ≡ none)
    → (acquire p remote_ip remote_port now allocated made).1 ≡ some id
    → ((find connection_id id p.connections ≡ none)
        ⊎ ((c : Connection) × (find connection_id id p.connections ≡ some c) × (c.in_use ≡ false)))
      × IsLeased remote_ip remote_port id p.connections
          (acquire p remote_ip remote_port now allocated made).0.connections
      × IsPooled (acquire p remote_ip remote_port now allocated made).0
acquire_exclusive p remote_ip remote_port now id allocated made pooled fresh got =
    acquire-IsExclusive p remote_ip remote_port now allocated made pooled fresh id got
