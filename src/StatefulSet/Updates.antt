-- ===== src/StatefulSet/Updates.antt =====
-- sirah/internal/statefulset/statefulset.c: the choice of the next pod to create and to delete, the counts
-- of a status, and the rolling update.
use sirah_c.Prelude.{
  ℕ, zero, suc, ◌+◌, Bool, true, false, not, ◌&&◌, Option, none, some, String, ltb, leb, ◌==◌,
  if◌then◌else◌, u32, ℤ, pos, negsuc, at_least,
}
use sirah_c.StatefulSet.{
  Status, ManagementPolicy, ordered_ready, parallel, rolling_update, OrdinalState, pending, running,
  terminated, failed, SetStatus, StatefulSet, Manager, get,
}
use sirah_c.StatefulSet.Pods.{on_set, on_status, ask}

abbrev pub waits : OrdinalState → Bool
waits pending = true
waits failed = true
waits _ = false

abbrev pub needs_pod : SetStatus → ℕ → Bool
needs_pod s i = if ltb i s.ordinals then waits (s.pod_ordinals i).state else true

-- Whether the pod before is ready, where there is one.
abbrev pub after_ready : SetStatus → ℕ → Bool
after_ready s zero = true
after_ready s (suc i) = (s.pod_ordinals i).ready

abbrev pub is_allowed : ManagementPolicy → SetStatus → ℕ → Bool
is_allowed ordered_ready s i = after_ready s i
is_allowed parallel s i = true
is_allowed rolling_update s i = true

-- The pod that the loop takes.
abbrev pub is_next : StatefulSet → ℕ → Bool
is_next s i = needs_pod s.status i && is_allowed s.spec.pod_management_policy s.status i

-- The rounds of the loop over ordinals from one on.
unfoldable pub first_next : StatefulSet → ℕ → ℕ → Option ℕ
first_next s zero i = none
first_next s (suc rounds) i =
    let rest = first_next s rounds (i + 1) in if is_next s i then some i else rest

abbrev pub count : ℤ → ℕ
count (pos n) = n
count (negsuc n) = 0

abbrev pub next_to_create : StatefulSet → Option ℕ
next_to_create s = first_next s (count s.spec.replicas) 0

-- The first component is whether there is such a set; the second is `none` for the ordinal -1.
unfoldable pub get_next_ordinal_to_create : Manager → String → String → Option (Option ℕ)
unfolding get first_next
get_next_ordinal_to_create m namespace name =
    ask none (λ s. some (first_next s (count s.spec.replicas) 0)) (get m namespace name)

abbrev pub is_terminated : OrdinalState → Bool
is_terminated terminated = true
is_terminated _ = false

-- The rounds of the loop over ordinals from the last one down.
unfoldable pub last_alive : StatefulSet → ℕ → Option ℕ
last_alive s zero = none
last_alive s (suc i) =
    let rest = last_alive s i in
    if not (at_least i s.spec.replicas)
    then none
    else (if is_terminated (s.status.pod_ordinals i).state then rest else some i)

unfoldable pub get_next_ordinal_to_delete : Manager → String → String → Option (Option ℕ)
unfolding get last_alive
get_next_ordinal_to_delete m namespace name =
    ask none (λ s. some (last_alive s s.status.ordinals)) (get m namespace name)

abbrev pub with_counts : ℕ → ℕ → ℕ → ℕ → SetStatus → SetStatus
with_counts replicas ready_replicas updated_replicas now s = record s {
  replicas = replicas;
  ready_replicas = ready_replicas;
  updated_replicas = updated_replicas;
  last_update_time = now;
}

unfoldable pub update_status : Manager → String → String → ℕ → ℕ → ℕ → ℕ → Manager × Status
unfolding on_set
update_status m namespace name replicas ready_replicas updated_replicas now =
    on_set m namespace name
      (λ s. some (on_status (with_counts replicas ready_replicas updated_replicas now) s))

abbrev pub is_count : ℤ → ℕ → Bool
is_count (pos n) i = n == i
is_count (negsuc n) i = false

unfoldable pub is_rolled_out : Manager → String → String → Bool
unfolding get
is_rolled_out m namespace name =
    ask false
      (λ s.
        is_count s.spec.replicas s.status.replicas
        && is_count s.spec.replicas s.status.ready_replicas
        && is_count s.spec.replicas s.status.updated_replicas)
      (get m namespace name)

abbrev pub with_update : ℕ → StatefulSet → StatefulSet
with_update now s = record s {
  spec = record s.spec { generation = u32 (s.spec.generation + 1) };
  status = record s.status {
    update_revision = u32 (s.status.update_revision + 1);
    update_in_progress = true;
    last_update_time = now;
  };
}

unfoldable pub start_rolling_update : Manager → String → String → ℕ → Manager × Status
unfolding on_set
start_rolling_update m namespace name now = on_set m namespace name (λ s. some (with_update now s))

unfoldable pub get_current_revision : Manager → String → String → Option ℕ
unfolding get
get_current_revision m namespace name =
    ask none (λ s. some s.status.current_revision) (get m namespace name)

abbrev pub with_partition : ℕ → StatefulSet → StatefulSet
with_partition partition s = record s { spec = record s.spec { partition = pos partition } }

unfoldable pub set_update_partition : Manager → String → String → ℕ → Manager × Status
unfolding on_set
set_update_partition m namespace name partition =
    on_set m namespace name (λ s. some (with_partition partition s))

abbrev pub is_running : OrdinalState → Bool
is_running running = true
is_running _ = false

-- `none` is a read behind the end of the array.
unfoldable pub ordinal_needs_update : Manager → String → String → ℕ → Option Bool
unfolding get
ordinal_needs_update m namespace name i =
    ask (some false)
      (λ s.
        if not (at_least i s.spec.partition)
        then some false
        else (if leb 1000 i then none else some (is_running (s.status.pod_ordinals i).state)))
      (get m namespace name)

unfoldable pub get_service_name : Manager → String → String → Option String
unfolding get
get_service_name m namespace name = ask none (λ s. some s.spec.service_name) (get m namespace name)
