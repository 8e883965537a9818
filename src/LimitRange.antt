-- ===== src/LimitRange.antt =====
-- sirah/internal/limitrange/limitrange.{h,c}: the table of limit ranges and what they let in. An argument
-- is the object that a pointer leads to (a null pointer is turned away before any state is read), and
-- `now` is what `time(NULL)` answers. Texts are taken to fit the arrays that they are copied into, and
-- numbers their types.
pub mod Admission
pub mod Invariant
pub mod Later
pub mod Limits
pub mod Quantities
mod Tests
use Prim.Native.String.{len}
use sirah_c.Prelude.{
  ℕ, ◌+◌, Bool, true, false, not, ◌||◌, Option, none, some, List, [], ◌∷◌, String, str_eq, ltb, leb,
  ◌==◌, if◌then◌else◌, length, filter, u32,
}
use sirah_c.Table.{find, change, drop, insert, pair_key}

-- The return codes 0, -1 and -2.
pub data Status : Type 0 where
  ok error invalid : Status

pub data ItemType : Type 0 where
  container pod pvc custom : ItemType

abbrev pub is_type : ItemType → ItemType → Bool
is_type container container = true
is_type pod pod = true
is_type pvc pvc = true
is_type custom custom = true
is_type a b = false

-- A zero is no limit.
pub record ResourceLimit : Type 0 where
  pub min_bytes : ℕ
  pub max_bytes : ℕ
  pub default_bytes : ℕ
  pub default_request_bytes : ℕ
  pub max_limit_request_ratio : ℕ

pub record Item : Type 0 where
  pub type : ItemType
  pub type_name : String
  pub cpu : ResourceLimit
  pub memory : ResourceLimit
  pub storage : ResourceLimit

-- `item_count` is the length of `items`; a count below 0 is turned away like the count 0.
pub record Spec : Type 0 where
  pub name : String
  pub namespace : String
  pub items : List Item
  pub created_at : ℕ
  pub updated_at : ℕ
  pub generation : ℕ

pub record LimitRange : Type 0 where
  pub spec : Spec
  pub message : String
  pub enforcing : Bool

pub record Manager : Type 0 where
  pub initialized : Bool
  pub limitranges : List LimitRange

abbrev pub range_key : LimitRange → String × String
range_key r = (r.spec.namespace, r.spec.name)

unfoldable pub init : Manager → Manager
init m = if m.initialized then m else record { initialized = true; limitranges = [] }

unfoldable pub shutdown : Manager → Manager
shutdown m = if not m.initialized then m else record { initialized = false; limitranges = [] }

unfoldable pub validate_spec : Spec → Bool
validate_spec s =
    if (len s.name == 0) || ltb 253 (len s.name)
    then false
    else (if (len s.namespace == 0) || ltb 253 (len s.namespace)
        then false
        else (if (length s.items == 0) || ltb 10 (length s.items) then false else true))

unfoldable pub can_create : String → Spec → Bool
unfolding validate_spec
can_create namespace s = validate_spec s

abbrev pub new_range : String → String → ℕ → Spec → LimitRange
new_range namespace name now s = record {
  spec = record s {
    namespace = namespace;
    name = name;
    created_at = now;
    updated_at = now;
    generation = 1;
  };
  message = "LimitRange enforcing";
  enforcing = true;
}

abbrev pub put : Manager → Option (List LimitRange) → Manager × Status
put m none = (m, error)
put m (some rs) = (record m { limitranges = rs }, ok)

abbrev pub if_valid : Bool → Manager → Option (List LimitRange) → Manager × Status
if_valid valid m none = (m, error)
if_valid true m (some rs) = (record m { limitranges = rs }, ok)
if_valid false m (some rs) = (m, invalid)

-- The specification's own name and namespace are validated, and the arguments are stored.
unfoldable pub create : Manager → String → String → Spec → ℕ → Manager × Status
unfolding insert validate_spec
create m namespace name s now =
    if_valid (validate_spec s) m
      (insert range_key 100 (new_range namespace name now s) m.limitranges)

unfoldable pub get : Manager → String → String → Option LimitRange
unfolding find
get m namespace name = find range_key (namespace, name) m.limitranges

-- The generation of the argument is raised, not that of the range.
abbrev pub renewed : String → String → Spec → ℕ → LimitRange → LimitRange
renewed namespace name s now old = record old {
  spec = record s {
    namespace = namespace;
    name = name;
    created_at = old.spec.created_at;
    updated_at = now;
    generation = u32 (s.generation + 1);
  };
}

unfoldable pub update : Manager → String → String → Spec → ℕ → Manager × Status
unfolding change validate_spec
update m namespace name s now = if_valid (validate_spec s) m (
    change range_key (namespace, name) (λ old. some (renewed namespace name s now old))
      m.limitranges)

unfoldable pub delete : Manager → String → String → Manager × Status
unfolding drop
delete m namespace name = put m (drop range_key (namespace, name) m.limitranges)

abbrev pub is_in : String → LimitRange → Bool
is_in namespace r = str_eq r.spec.namespace namespace

unfoldable pub list : Manager → String → List LimitRange
list m namespace = filter (is_in namespace) m.limitranges

unfoldable pub list_count : Manager → String → ℕ
list_count m namespace = length (filter (is_in namespace) m.limitranges)

abbrev pub is_active : Option LimitRange → Bool
is_active none = false
is_active (some r) = r.enforcing

unfoldable pub is_enforcing : Manager → String → String → Bool
unfolding get
is_enforcing m namespace name = is_active (get m namespace name)
