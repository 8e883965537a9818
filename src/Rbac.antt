-- ===== src/Rbac.antt =====
-- sirah/internal/rbac/rbac_manager.{h,c}: the roles and bindings that the manager stores. An argument is
-- the object that a pointer leads to (a null pointer is turned away before any state is read), and `now`
-- is what `time(NULL)` answers. Texts are taken to fit the arrays that they are copied into, and the
-- arrays of an argument are its lists.
pub mod Access
pub mod Audit
pub mod Bindings
pub mod Calls
pub mod Covering
pub mod Denials
pub mod Effects
pub mod Extension
pub mod Grants
pub mod Policy
pub mod Refinement
mod Tests
use sirah_c.Prelude.{
  ℕ, zero, suc, ◌+◌, ◌-◌, Bool, true, false, ◌&&◌, Option, none, some, List, [], ◌∷◌, ◌++◌, String,
  str_eq, ltb, leb, if◌then◌else◌, length, cons_to, filter,
}
use sirah_c.Table.{find, change, drop, insert, string_key, pair_key}

-- The return codes 0 and -1.
pub data Status : Type 0 where
  ok error : Status

pub data Decision : Type 0 where
  allow deny no_opinion : Decision

pub data SubjectType : Type 0 where
  user group service_account : SubjectType

pub record Subject : Type 0 where
  pub type : SubjectType
  pub name : String
  pub namespace : String

pub record Rule : Type 0 where
  pub api_groups : List String
  pub resources : List String
  pub verbs : List String
  pub resource_names : List String
  pub subresources : List String

pub record Role : Type 0 where
  pub name : String
  pub namespace : String
  pub rules : List Rule
  pub aggregation_labels : List String
  pub created_at : ℕ
  pub created_by : String

pub record Binding : Type 0 where
  pub name : String
  pub namespace : String
  pub subjects : List Subject
  pub role_name : String
  pub role_kind : String
  pub created_at : ℕ
  pub created_by : String

pub record AuditEvent : Type 0 where
  pub timestamp : ℕ
  pub user : String
  pub group : String
  pub verb : String
  pub api_group : String
  pub resource : String
  pub resource_name : String
  pub namespace : String
  pub decision : Decision
  pub reason : String
  pub source_ip : String

pub record Manager : Type 0 where
  pub roles : List Role
  pub role_bindings : List Binding
  pub cluster_roles : List Role
  pub cluster_role_bindings : List Binding
  pub audit_logs : List AuditEvent
  pub running : Bool

abbrev pub role_key : Role → String × String
role_key r = (r.namespace, r.name)

abbrev pub cluster_role_key : Role → String
cluster_role_key r = r.name

abbrev pub binding_key : Binding → String × String
binding_key b = (b.namespace, b.name)

abbrev pub cluster_binding_key : Binding → String
cluster_binding_key b = b.name

-- What a change of one array makes of the state: the new state, or the old one where the change is
-- refused.
abbrev pub settle {ℓ κ} : {M : Type ℓ} {X : Type κ} → (M → X → M) → M → Option X → M × Status
settle set m none = (m, error)
settle set m (some x) = (set m x, ok)

abbrev pub set_roles : Manager → List Role → Manager
set_roles m rs = record m { roles = rs }

abbrev pub set_cluster_roles : Manager → List Role → Manager
set_cluster_roles m rs = record m { cluster_roles = rs }

abbrev pub set_bindings : Manager → List Binding → Manager
set_bindings m bs = record m { role_bindings = bs }

abbrev pub set_cluster_bindings : Manager → List Binding → Manager
set_cluster_bindings m bs = record m { cluster_role_bindings = bs }

abbrev pub scoped_role : String → Role → Role
scoped_role namespace r = record r { namespace = namespace }

abbrev pub stamped_role : String → ℕ → Role → Role
stamped_role namespace now r = record r { namespace = namespace; created_at = now }

unfoldable pub create_role : Manager → String → Role → ℕ → Manager × Status
unfolding insert
create_role m namespace r now =
    settle set_roles m (insert role_key 1000 (stamped_role namespace now r) m.roles)

unfoldable pub get_role : Manager → String → String → Option Role
unfolding find
get_role m namespace name = find role_key (namespace, name) m.roles

-- The whole entry is copied over, `created_at` too.
unfoldable pub update_role : Manager → String → Role → Manager × Status
unfolding change
update_role m namespace r =
    settle set_roles m
      (change role_key (namespace, r.name) (λ old. some (scoped_role namespace r)) m.roles)

unfoldable pub delete_role : Manager → String → String → Manager × Status
unfolding drop
delete_role m namespace name = settle set_roles m (drop role_key (namespace, name) m.roles)

unfoldable pub list_roles : Manager → String → List Role
list_roles m namespace = filter (λ r. str_eq r.namespace namespace) m.roles

abbrev pub with_rule : Rule → Role → Option Role
with_rule rule r =
    if leb 50 (length r.rules) then none else some (record r { rules = r.rules ++ rule ∷ [] })

unfoldable pub add_rule_to_role : Manager → String → String → Rule → Manager × Status
unfolding change
add_rule_to_role m namespace name rule =
    settle set_roles m (change role_key (namespace, name) (with_rule rule) m.roles)

-- The rules without the one at an index; `none` where the index is out of range.
unfoldable pub drop_rule : ℕ → List Rule → Option (List Rule)
drop_rule i [] = none
drop_rule zero (r ∷ rs) = some rs
drop_rule (suc i) (r ∷ rs) = cons_to r (drop_rule i rs)

abbrev pub put_rules : Role → Option (List Rule) → Option Role
put_rules r none = none
put_rules r (some rules) = some (record r { rules = rules })

unfoldable pub remove_rule_from_role : Manager → String → String → ℕ → Manager × Status
unfolding change drop_rule
remove_rule_from_role m namespace name rule_index =
    settle set_roles m
      (change role_key (namespace, name) (λ r. put_rules r (drop_rule rule_index r.rules)) m.roles)

unfoldable pub create_cluster_role : Manager → Role → ℕ → Manager × Status
unfolding insert
create_cluster_role m r now =
    settle set_cluster_roles m (insert cluster_role_key 200 (stamped_role "" now r) m.cluster_roles)

unfoldable pub get_cluster_role : Manager → String → Option Role
unfolding find
get_cluster_role m name = find cluster_role_key name m.cluster_roles

unfoldable pub update_cluster_role : Manager → Role → Manager × Status
unfolding change
update_cluster_role m r =
    settle set_cluster_roles m
      (change cluster_role_key r.name (λ old. some (scoped_role "" r)) m.cluster_roles)

unfoldable pub delete_cluster_role : Manager → String → Manager × Status
unfolding drop
delete_cluster_role m name = settle set_cluster_roles m (drop cluster_role_key name m.cluster_roles)
