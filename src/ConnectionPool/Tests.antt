-- ===== src/ConnectionPool/Tests.antt =====
-- A pool of sirah/internal/optimization/connection_pool.c of two connections.
use sirah_c.Prelude.{
  ℕ, ◌+◌, ◌≡◌, ◌↔◌, length, ◌⊎◌, refl, true, false, none, some, [], ◌∷◌, negsuc, arith,
}
use sirah_c.Table.{find}
use sirah_c.ConnectionPool.{Connection, Pool, id_key, connection_id, acquire, cleanup_idle}
use sirah_c.ConnectionPool.Leases.{IsPooled, IsLeased, acquire_exclusive}
use sirah_c.ConnectionPool.Cleanup.{IsKept, cleanup_idle_lem}

abbrev busy : Connection
busy = record {
  id = 1;
  fd = negsuc 0;
  remote_ip = "10.0.0.1";
  remote_port = 443;
  in_use = true;
  created_at = 5;
  last_used_at = 5;
}

abbrev idle : Connection
idle = record busy { id = 2; in_use = false }

abbrev pool : Pool
pool = record {
  connections = busy ∷ idle ∷ [];
  max_connections = 2;
  idle_timeout_seconds = 300;
  enabled = true;
}

full : (acquire pool "10.0.0.2" 443 9 (some 3) true).1 ≡ none
unfolding acquire
full = refl

reused : (acquire pool "10.0.0.1" 443 9 none true).1 ≡ some 2
unfolding acquire
reused = refl

pool-IsPooled : IsPooled pool
unfolding find
pool-IsPooled = record { unique = (refl, (refl, tt)); few = omega arith }

nothing_new : (fresh : ℕ) → none ≡ some fresh → find connection_id fresh pool.connections ≡ none
nothing_new fresh h = absurd (ground arith)

acquire_exclusive_example :
    ((find connection_id 2 pool.connections ≡ none)
      ⊎ ((c : Connection) × (find connection_id 2 pool.connections ≡ some c) × (c.in_use ≡ false)))
    × IsLeased "10.0.0.1" 443 2 pool.connections
        (acquire pool "10.0.0.1" 443 9 none true).0.connections
    × IsPooled (acquire pool "10.0.0.1" 443 9 none true).0
acquire_exclusive_example =
    acquire_exclusive pool "10.0.0.1" 443 9 2 none true pool-IsPooled nothing_new reused

cleanup_idle_lem_example :
    IsPooled (cleanup_idle pool 400).0
    × ((id : ℕ) (c : Connection)
        → (find connection_id id (cleanup_idle pool 400).0.connections ≡ some c)
          ↔ ((find connection_id id pool.connections ≡ some c) × IsKept 400 300 c))
    × ((cleanup_idle pool 400).1 + length (cleanup_idle pool 400).0.connections ≡ 2)
cleanup_idle_lem_example = cleanup_idle_lem pool 400 pool-IsPooled

cleaned : ((cleanup_idle pool 400).0.connections ≡ busy ∷ []) × ((cleanup_idle pool 400).1 ≡ 1)
unfolding cleanup_idle
cleaned = (refl, refl)
