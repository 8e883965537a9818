-- ===== src/Ipam.antt =====
-- internal/ipam/ipam_manager.{h,c}: the manager of pod and service addresses. Addresses are kept in
-- network byte order on a little-endian machine; where the C interface passes one as text, the model
-- passes the number that `inet_pton` reads (0 for a text that it rejects). `none` as the outcome of an
-- operation is an invalid memory access. What `malloc` and `realloc` answer is an argument, `true` for
-- success; `strdup` is taken to succeed.
pub mod Bytes
pub mod Pools
pub mod Queries
pub mod Allocation
pub mod Sharing
pub mod Bounds
pub mod Invariant
pub mod Given
pub mod History
pub mod Faults
mod Tests
use Prim.Native.Nat.{bit_and, bit_or}
use sirah_c.Prelude.{
  ℕ, ◌+◌, ◌-◌, ◌*◌, ◌/◌, ◌%◌, ◌^◌, Bool, true, false, ◌||◌, Option, none, some, ◌>>=◌, List, [],
  ◌∷◌, ◌++◌, String, str_eq, ltb, leb, ◌==◌, if◌then◌else◌, u32, length,
}
use Bytes.{htonl, ntohl}

-- `ip_pool_t`, and the like fields of `node_allocation_t`: the addresses in use, the capacity on record
-- and the words that the array really has.
pub record Pool : Type 0 where
  pub allocated_ips : List ℕ
  pub ip_capacity : ℕ
  pub room : ℕ

pub record Node : Type 0 where
  pub node_name : String
  pub node_cidr_start : ℕ
  pub node_cidr_end : ℕ
  pub pool : Pool

pub record Manager : Type 0 where
  pub cluster_start : ℕ
  pub cluster_end : ℕ
  pub service_start : ℕ
  pub service_end : ℕ
  pub nodes : List Node
  pub node_capacity : ℕ
  pub node_room : ℕ
  pub pod_ips : Pool
  pub service_ips : Pool

-- A CIDR text: what `inet_pton` reads before its slash, and what `atoi` reads behind it, as a
-- `uint32_t`; no prefix where there is no slash.
pub record Cidr : Type 0 where
  pub address : ℕ
  pub prefix : Option ℕ

pub record Range : Type 0 where
  pub network : ℕ
  pub broadcast : ℕ
  pub prefix_len : ℕ

-- The network, the broadcast address and the prefix that `parse_cidr` computes; `none` is a shift by 32
-- bits or more.
unfoldable pub cidr_range : Cidr → Option Range
cidr_range c = elim c.prefix [
  | none ↦ some (record { network = 0; broadcast = 0; prefix_len = 0 })
  | some prefix ↦
      let mask : ℕ = u32 (4294967295 * 2 ^ (32 - prefix)) in
      let network : ℕ = bit_and c.address mask in
      if (prefix == 0) || ltb 32 prefix
      then none
      else some (record {
        network = network;
        broadcast = bit_or network (4294967295 - mask);
        prefix_len = prefix;
      })
]

-- Each path writes through `out_prefix`: `has_out_prefix` says whether that pointer leads anywhere.
unfoldable pub parse_cidr : Cidr → Bool → Option Range
unfolding cidr_range
parse_cidr c has_out_prefix = do range ← cidr_range c; if has_out_prefix then some range else none

abbrev empty_pool : ℕ → Pool
empty_pool n = record { allocated_ips = []; ip_capacity = n; room = n }

-- `ipam_manager_create` past its checks for null, with all allocations made.
unfoldable pub create : Cidr → Cidr → Option Manager
unfolding parse_cidr
create cluster service = do
  cluster_range ← parse_cidr cluster false
  service_range ← parse_cidr service false
  some (record {
    cluster_start = cluster_range.network;
    cluster_end = cluster_range.broadcast;
    service_start = service_range.network;
    service_end = service_range.broadcast;
    nodes = [];
    node_capacity = 32;
    node_room = 32;
    pod_ips = empty_pool 256;
    service_ips = empty_pool 64;
  })
