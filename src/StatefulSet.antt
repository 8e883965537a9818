-- ===== src/StatefulSet.antt =====
-- sirah/internal/statefulset/statefulset.{h,c}: the table of stateful sets. An argument is the object that
-- a pointer leads to (a null pointer is turned away before any state is read), and `now` is what
-- `time(NULL)` answers. Texts are taken to fit the arrays that they are copied into, ordinals that are
-- given not to be negative, and counts to stay below 2^31; the fields of a specification have signs.
pub mod Pods
pub mod Order
pub mod Rollout
pub mod Updates
pub mod Wanted
mod Tests
use Prim.Native.String.{len}
use sirah_c.Prelude.{
  ℕ, zero, suc, ◌+◌, ◌-◌, ◌/◌, ◌%◌, Bool, true, false, not, ◌&&◌, ◌||◌, Option, none, some, List,
  [], ◌∷◌, ◌++◌, String, str_eq, ltb, leb, ◌==◌, if◌then◌else◌, length, filter, u32, ℤ, pos, negsuc,
  is_between,
}
use sirah_c.Table.{find, change, drop, insert, string_key, pair_key}

-- The return codes 0, -1 and -2.
pub data Status : Type 0 where
  ok error invalid : Status

pub data ManagementPolicy : Type 0 where
  ordered_ready parallel rolling_update : ManagementPolicy

pub data UpdateStrategy : Type 0 where
  rolling on_delete by_partition : UpdateStrategy

pub data OrdinalState : Type 0 where
  pending creating running ready terminating terminated failed : OrdinalState

pub record PodOrdinal : Type 0 where
  pub ordinal : ℕ
  pub pod_name : String
  pub state : OrdinalState
  pub ready : Bool
  pub pvc_names : List String

pub record Template : Type 0 where
  pub name : String
  pub storage_class_name : String
  pub storage_bytes : ℕ
  pub access_modes : ℕ

pub record Spec : Type 0 where
  pub name : String
  pub namespace : String
  pub replicas : ℤ
  pub partition : ℤ
  pub service_name : String
  pub pod_template_name : String
  pub pod_management_policy : ManagementPolicy
  pub update_strategy : UpdateStrategy
  pub revision_history_limit : ℤ
  pub termination_grace_period_seconds : ℤ
  pub container_image : String
  pub container_port : ℤ
  pub volume_templates : List Template
  pub selectors : List (String × String)
  pub created_at : ℕ
  pub updated_at : ℕ
  pub generation : ℕ

-- `ordinals` is `max_ordinal + 1`, and `ready_ordinals` is `ready_ordinal + 1`. The array of 1000 pods is
-- the function on the indices below 1000.
pub record SetStatus : Type 0 where
  pub replicas : ℕ
  pub ready_replicas : ℕ
  pub updated_replicas : ℕ
  pub current_revision : ℕ
  pub update_revision : ℕ
  pub last_update_time : ℕ
  pub update_in_progress : Bool
  pub pod_ordinals : ℕ → PodOrdinal
  pub ordinals : ℕ
  pub ready_ordinals : ℕ

pub record StatefulSet : Type 0 where
  pub spec : Spec
  pub status : SetStatus

pub record Manager : Type 0 where
  pub initialized : Bool
  pub statefulsets : List StatefulSet

abbrev pub set_key : StatefulSet → String × String
set_key s = (s.spec.namespace, s.spec.name)

unfoldable pub init : Manager → Manager
init m = if m.initialized then m else record { initialized = true; statefulsets = [] }

unfoldable pub shutdown : Manager → Manager
shutdown m = if not m.initialized then m else record { initialized = false; statefulsets = [] }

unfoldable pub validate_spec : Spec → Bool
validate_spec s =
    if (len s.name == 0) || ltb 253 (len s.name)
    then false
    else (if not (is_between 0 1000 s.replicas)
        then false
        else (if len s.service_name == 0
            then false
            else is_between 0 3600 s.termination_grace_period_seconds))

unfoldable pub can_create : String → Spec → Bool
unfolding validate_spec
can_create namespace s =
    if (len namespace == 0) || ltb 253 (len namespace) then false else validate_spec s

-- An entry of the array that is all zeros.
abbrev pub blank : PodOrdinal
blank = record { ordinal = 0; pod_name = ""; state = pending; ready = false; pvc_names = [] }

abbrev pub new_status : SetStatus
new_status = record {
  replicas = 0;
  ready_replicas = 0;
  updated_replicas = 0;
  current_revision = 1;
  update_revision = 1;
  last_update_time = 0;
  update_in_progress = false;
  pod_ordinals = λ i. blank;
  ordinals = 0;
  ready_ordinals = 0;
}

abbrev pub new_set : String → String → Spec → ℕ → StatefulSet
new_set namespace name s now = record {
  spec = record s {
    namespace = namespace;
    name = name;
    created_at = now;
    updated_at = now;
    generation = 1;
  };
  status = new_status;
}

-- The state with a new array, or the old one where the operation is refused.
abbrev pub put_sets : Manager → Option (List StatefulSet) → Manager × Status
put_sets m none = (m, error)
put_sets m (some ss) = (record m { statefulsets = ss }, ok)

abbrev pub if_valid : Bool → Manager → Option (List StatefulSet) → Manager × Status
if_valid valid m none = (m, error)
if_valid true m (some ss) = (record m { statefulsets = ss }, ok)
if_valid false m (some ss) = (m, invalid)

unfoldable pub create : Manager → String → String → Spec → ℕ → Manager × Status
unfolding insert validate_spec
create m namespace name s now =
    if_valid (validate_spec s) m (insert set_key 500 (new_set namespace name s now) m.statefulsets)

unfoldable pub get : Manager → String → String → Option StatefulSet
unfolding find
get m namespace name = find set_key (namespace, name) m.statefulsets

-- The generation of the argument is raised, not that of the set.
abbrev pub renewed : String → String → Spec → ℕ → StatefulSet → StatefulSet
renewed namespace name s now old = record old {
  spec = record s {
    namespace = namespace;
    name = name;
    created_at = old.spec.created_at;
    updated_at = now;
    generation = u32 (s.generation + 1);
  };
}

unfoldable pub update : Manager → String → String → Spec → ℕ → Manager × Status
unfolding change validate_spec
update m namespace name s now = if_valid (validate_spec s) m (
    change set_key (namespace, name) (λ old. some (renewed namespace name s now old))
      m.statefulsets)

unfoldable pub delete : Manager → String → String → Manager × Status
unfolding drop
delete m namespace name = put_sets m (drop set_key (namespace, name) m.statefulsets)

abbrev pub is_in : Option String → StatefulSet → Bool
is_in none s = true
is_in (some namespace) s = str_eq s.spec.namespace namespace

unfoldable pub list : Manager → Option String → List StatefulSet
list m namespace = filter (is_in namespace) m.statefulsets

unfoldable pub list_count : Manager → Option String → ℕ
list_count m namespace = length (filter (is_in namespace) m.statefulsets)
