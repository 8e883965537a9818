-- ===== src/LimitRange/Limits.antt =====
-- sirah/internal/limitrange/limitrange.c: what the limit ranges of a namespace let in, and the defaults
-- that they give. The table is in LimitRange.antt.
use sirah_c.Prelude.{ℕ, Bool, ◌&&◌, Option, none, some, List, [], ◌∷◌, String, ltb, if◌then◌else◌}
use sirah_c.LimitRange.{
  ItemType, container, pod, pvc, is_type, ResourceLimit, Item, LimitRange, Manager, is_in,
}

-- Each reason is a message that the source prints.
pub data Reason : Type 0 where
  cpu_below_minimum cpu_above_maximum memory_below_minimum memory_above_maximum : Reason
  pod_cpu_above_limit pod_memory_above_limit storage_above_limit : Reason

-- The answers 1, and 0 with a reason.
pub data Verdict : Type 0 where
  admitted : Verdict
  denied : Reason → Verdict

unfoldable pub first_item : ItemType → List Item → Option Item
first_item t [] = none
first_item t (i ∷ is) = if is_type i.type t then some i else first_item t is

-- The search of the checks and of the defaults: it ends at the first range of the namespace.
unfoldable pub find_item : ItemType → String → List LimitRange → Option Item
unfolding first_item
find_item t namespace [] = none
find_item t namespace (r ∷ rs) =
    if is_in namespace r then first_item t r.spec.items else find_item t namespace rs

abbrev pub first_of : Option Item → Option Item → Option Item
first_of none o = o
first_of (some i) o = some i

-- The search of the queries: it goes on through the other ranges of the namespace.
unfoldable pub query_item : ItemType → String → List LimitRange → Option Item
unfolding first_item
query_item t namespace [] = none
query_item t namespace (r ∷ rs) =
    let rest = query_item t namespace rs in
    if is_in namespace r then first_of (first_item t r.spec.items) rest else rest

abbrev pub is_below : ℕ → ResourceLimit → Bool
is_below amount l = ltb 0 amount && (ltb 0 l.min_bytes && ltb amount l.min_bytes)

abbrev pub is_above : ℕ → ResourceLimit → Bool
is_above amount l = ltb 0 amount && (ltb 0 l.max_bytes && ltb l.max_bytes amount)

unfoldable pub check_container : Option Item → ℕ → ℕ → ℕ → ℕ → Verdict
check_container none cpu_request cpu_limit memory_request memory_limit = admitted
check_container (some i) cpu_request cpu_limit memory_request memory_limit =
    if is_below cpu_request i.cpu
    then denied cpu_below_minimum
    else (if is_above cpu_limit i.cpu
        then denied cpu_above_maximum
        else (if is_below memory_request i.memory
            then denied memory_below_minimum
            else (if is_above memory_limit i.memory
                then denied memory_above_maximum
                else admitted)))

unfoldable pub validate_container : Manager → String → ℕ → ℕ → ℕ → ℕ → Verdict
unfolding find_item check_container
validate_container m namespace cpu_request cpu_limit memory_request memory_limit =
    check_container (find_item container namespace m.limitranges) cpu_request cpu_limit
      memory_request memory_limit

abbrev pub or_default : ℕ → ℕ → ℕ
or_default amount default = if ltb 0 amount then amount else default

abbrev pub requests_of : Option Item → ℕ → ℕ → Option (ℕ × ℕ)
requests_of none cpu memory = none
requests_of (some i) cpu memory =
    some
      (or_default cpu i.cpu.default_request_bytes, or_default memory i.memory.default_request_bytes)

abbrev pub limits_of : Option Item → ℕ → ℕ → Option (ℕ × ℕ)
limits_of none cpu memory = none
limits_of (some i) cpu memory =
    some (or_default cpu i.cpu.default_bytes, or_default memory i.memory.default_bytes)

-- The two amounts that are written, or `none` for -1.
unfoldable pub apply_container_defaults : Manager → String → ℕ → ℕ → Option (ℕ × ℕ)
unfolding find_item
apply_container_defaults m namespace cpu_request memory_request =
    requests_of (find_item container namespace m.limitranges) cpu_request memory_request

unfoldable pub apply_container_limit_defaults : Manager → String → ℕ → ℕ → Option (ℕ × ℕ)
unfolding find_item
apply_container_limit_defaults m namespace cpu_limit memory_limit =
    limits_of (find_item container namespace m.limitranges) cpu_limit memory_limit

unfoldable pub check_pod : Option Item → ℕ → ℕ → Verdict
check_pod none cpu memory = admitted
check_pod (some i) cpu memory =
    if is_above cpu i.cpu
    then denied pod_cpu_above_limit
    else (if is_above memory i.memory then denied pod_memory_above_limit else admitted)

-- The limits and the number of containers are arguments that the source does not read.
unfoldable pub validate_pod : Manager → String → ℕ → ℕ → ℕ → ℕ → ℕ → Verdict
unfolding find_item check_pod
validate_pod m namespace cpu_request cpu_limit memory_request memory_limit containers =
    check_pod (find_item pod namespace m.limitranges) cpu_request memory_request

abbrev pub cpu_limit_of : Option Item → ℕ → Option ℕ
cpu_limit_of none cpu = none
cpu_limit_of (some i) cpu = some (or_default cpu i.cpu.default_bytes)

unfoldable pub apply_pod_limit_defaults : Manager → String → ℕ → Option ℕ
unfolding find_item
apply_pod_limit_defaults m namespace cpu_limit =
    cpu_limit_of (find_item pod namespace m.limitranges) cpu_limit

unfoldable pub check_storage : Option Item → ℕ → Verdict
check_storage none bytes = admitted
check_storage (some i) bytes =
    if is_above bytes i.storage then denied storage_above_limit else admitted

unfoldable pub validate_storage : Manager → String → ℕ → Verdict
unfolding find_item check_storage
validate_storage m namespace bytes = check_storage (find_item pvc namespace m.limitranges) bytes

unfoldable pub get_container_item : Manager → String → Option Item
unfolding query_item
get_container_item m namespace = query_item container namespace m.limitranges

unfoldable pub get_pod_item : Manager → String → Option Item
unfolding query_item
get_pod_item m namespace = query_item pod namespace m.limitranges

unfoldable pub get_pvc_item : Manager → String → Option Item
unfolding query_item
get_pvc_item m namespace = query_item pvc namespace m.limitranges
