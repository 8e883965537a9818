-- ===== src/ConnectionPool.antt =====
-- sirah/internal/optimization/connection_pool.{h,c}: the pool of connections. A pointer to a connection is
-- the number that is its `id`, an argument is not null, and `now` is what `time(NULL)` answers. What
-- `calloc` answers for a new connection is an argument, `none` for a failure, and so is whether the other
-- two allocations are made. The amounts are not negative and stay within their types.
pub mod Cleanup
pub mod Leases
mod Tests
use sirah_c.Prelude.{
  ℕ, zero, suc, ◌+◌, ◌-◌, Bool, true, false, not, ◌&&◌, ◌||◌, Option, none, some, List, [], ◌∷◌,
  ◌++◌, String, str_eq, ltb, leb, ◌==◌, ==_iff, if◌then◌else◌, length, get_elem?, filter, ℤ, negsuc,
}
use sirah_c.Table.{Key, change, drop}

pub record Connection : Type 0 where
  pub id : ℕ
  pub fd : ℤ
  pub remote_ip : String
  pub remote_port : ℕ
  pub in_use : Bool
  pub created_at : ℕ
  pub last_used_at : ℕ

-- `num_connections` is the length of `connections`.
pub record Pool : Type 0 where
  pub connections : List Connection
  pub max_connections : ℕ
  pub idle_timeout_seconds : ℕ
  pub enabled : Bool

instance abbrev pub id_key : Key ℕ
id_key = record { same = ◌==◌; same_iff = ==_iff }

abbrev pub connection_id : Connection → ℕ
connection_id c = c.id

unfoldable pub new : ℕ → ℕ → Option Pool
new max_connections idle_timeout_seconds =
    if (max_connections == 0) || (idle_timeout_seconds == 0)
    then none
    else some (record {
      connections = [];
      max_connections = max_connections;
      idle_timeout_seconds = idle_timeout_seconds;
      enabled = true;
    })

unfoldable pub set_enabled : Pool → Bool → Pool
set_enabled p enabled = record p { enabled = enabled }

abbrev pub is_idle_to : String → ℕ → Connection → Bool
is_idle_to remote_ip remote_port c =
    not c.in_use && (str_eq c.remote_ip remote_ip && (c.remote_port == remote_port))

abbrev pub taken : ℕ → Connection → Connection
taken now c = record c { in_use = true; last_used_at = now }

abbrev pub put_behind {ℓ} :
    {A : Type ℓ} → Connection → Option (A × List Connection) → Option (A × List Connection)
put_behind c none = none
put_behind c (some r) = some (r.0, c ∷ r.1)

-- The search for an idle connection, with what it answers and what it leaves.
unfoldable pub take_idle : String → ℕ → ℕ → List Connection → Option (ℕ × List Connection)
take_idle remote_ip remote_port now [] = none
take_idle remote_ip remote_port now (c ∷ cs) =
    let rest = put_behind c (take_idle remote_ip remote_port now cs) in
    if is_idle_to remote_ip remote_port c then some (c.id, taken now c ∷ cs) else rest

abbrev pub new_connection : ℕ → String → ℕ → ℕ → Connection
new_connection id remote_ip remote_port now = record {
  id = id;
  fd = negsuc 0;
  remote_ip = remote_ip;
  remote_port = remote_port;
  in_use = true;
  created_at = now;
  last_used_at = now;
}

abbrev pub connect : Pool → String → ℕ → ℕ → Option ℕ → Bool → Pool × Option ℕ
connect p remote_ip remote_port now none made = (p, none)
connect p remote_ip remote_port now (some id) false = (p, none)
connect p remote_ip remote_port now (some id) true = (
  record p { connections = p.connections ++ new_connection id remote_ip remote_port now ∷ [] },
  some id,
)

abbrev pub reuse_or : Pool → Pool × Option ℕ → Option (ℕ × List Connection) → Pool × Option ℕ
reuse_or p other none = other
reuse_or p other (some r) = (record p { connections = r.1 }, some r.0)

unfoldable pub acquire : Pool → String → ℕ → ℕ → Option ℕ → Bool → Pool × Option ℕ
unfolding take_idle
acquire p remote_ip remote_port now allocated made =
    if leb remote_port 0
    then (p, none)
    else (if not p.enabled
        then (p, none)
        else reuse_or p
            (if ltb (length p.connections) p.max_connections
              then connect p remote_ip remote_port now allocated made
              else (p, none))
            (take_idle remote_ip remote_port now p.connections))

-- The second component is whether the answer is 0 and not -1.
abbrev pub put_connections : Pool → Option (List Connection) → Pool × Bool
put_connections p none = (p, false)
put_connections p (some cs) = (record p { connections = cs }, true)

abbrev pub idled : ℕ → Connection → Connection
idled now c = record c { in_use = false; last_used_at = now }

unfoldable pub release : Pool → ℕ → ℕ → Pool × Bool
unfolding change
release p id now =
    put_connections p (change connection_id id (λ c. some (idled now c)) p.connections)

unfoldable pub remove : Pool → ℕ → Pool × Bool
unfolding drop
remove p id = put_connections p (drop connection_id id p.connections)

abbrev pub is_expired : ℕ → ℕ → Connection → Bool
is_expired now timeout c = not c.in_use && ltb timeout (now - c.last_used_at)

-- The later connections move up.
unfoldable pub remove_at : ℕ → List Connection → List Connection
remove_at i [] = []
remove_at zero (c ∷ cs) = cs
remove_at (suc i) (c ∷ cs) = c ∷ remove_at i cs

-- A round of the loop; it ends behind the last connection.
abbrev pub cleanup_round :
    ℕ
    → ℕ
    → List Connection
    → List Connection × ℕ
    → List Connection × ℕ
    → Option Connection
    → List Connection × ℕ
cleanup_round now timeout cs shorter further none = (cs, 0)
cleanup_round now timeout cs shorter further (some c) =
    if is_expired now timeout c then shorter else further

-- The loop from index `i`, with what it leaves and how many it removes. After a removal the index stays.
unfoldable pub cleanup_from : ℕ → ℕ → ℕ → ℕ → List Connection → List Connection × ℕ
unfolding remove_at
cleanup_from now timeout zero i cs = (cs, 0)
cleanup_from now timeout (suc rounds) i cs =
    let shorter = cleanup_from now timeout rounds i (remove_at i cs) in
    let further = cleanup_from now timeout rounds (suc i) cs in
    cleanup_round now timeout cs (shorter.0, shorter.1 + 1) further (get_elem? cs i)

-- Each round removes a connection or passes one by, so that there are as many as connections.
unfoldable pub cleanup_idle : Pool → ℕ → Pool × ℕ
unfolding cleanup_from
cleanup_idle p now =
    let done = cleanup_from now p.idle_timeout_seconds (length p.connections) 0 p.connections in
    (record p { connections = done.0 }, done.1)

unfoldable pub get_active : Pool → ℕ
get_active p = length (filter (λ c. c.in_use) p.connections)

unfoldable pub get_idle : Pool → ℕ
get_idle p = length (filter (λ c. not c.in_use) p.connections)
