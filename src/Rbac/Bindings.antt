-- ===== src/Rbac/Bindings.antt =====
-- sirah/internal/rbac/rbac_manager.c: the bindings of roles to subjects, the audit log, and the roles and
-- bindings that the manager makes itself.
use Prim.Native.String.{◌++◌ as str_append}
use sirah_c.Prelude.{
  ℕ, zero, suc, ◌-◌, Bool, true, false, not, ◌&&◌, Option, none, some, List, [], ◌∷◌, ◌++◌, String,
  str_eq, ltb, leb, if◌then◌else◌, length, cons_to, filter,
}
use sirah_c.Table.{find, change, drop, insert, string_key, pair_key}
use sirah_c.Rbac.{
  Status, SubjectType, user, group, service_account, Subject, Rule, Role, Binding, AuditEvent,
  Manager, binding_key, cluster_binding_key, settle, set_bindings, set_cluster_bindings,
  create_cluster_role,
}

abbrev pub scoped_binding : String → Binding → Binding
scoped_binding namespace b = record b { namespace = namespace }

abbrev pub stamped_binding : String → ℕ → Binding → Binding
stamped_binding namespace now b = record b { namespace = namespace; created_at = now }

unfoldable pub create_role_binding : Manager → String → Binding → ℕ → Manager × Status
unfolding insert
create_role_binding m namespace b now =
    settle set_bindings m
      (insert binding_key 2000 (stamped_binding namespace now b) m.role_bindings)

unfoldable pub get_role_binding : Manager → String → String → Option Binding
unfolding find
get_role_binding m namespace name = find binding_key (namespace, name) m.role_bindings

unfoldable pub update_role_binding : Manager → String → Binding → Manager × Status
unfolding change
update_role_binding m namespace b = settle set_bindings m (
    change binding_key (namespace, b.name) (λ old. some (scoped_binding namespace b))
      m.role_bindings)

unfoldable pub delete_role_binding : Manager → String → String → Manager × Status
unfolding drop
delete_role_binding m namespace name =
    settle set_bindings m (drop binding_key (namespace, name) m.role_bindings)

unfoldable pub list_role_bindings : Manager → String → List Binding
list_role_bindings m namespace = filter (λ b. str_eq b.namespace namespace) m.role_bindings

abbrev pub with_subject : Subject → Binding → Option Binding
with_subject s b =
    if leb 20 (length b.subjects) then none else some (record b { subjects = b.subjects ++ s ∷ [] })

unfoldable pub add_subject_to_binding : Manager → String → String → Subject → Manager × Status
unfolding change
add_subject_to_binding m namespace name s =
    settle set_bindings m (change binding_key (namespace, name) (with_subject s) m.role_bindings)

abbrev pub same_type : SubjectType → SubjectType → Bool
same_type user user = true
same_type group group = true
same_type service_account service_account = true
same_type _ _ = false

-- The subjects without the first one of the name and type.
unfoldable pub drop_subject : Subject → List Subject → Option (List Subject)
drop_subject s [] = none
drop_subject s (x ∷ xs) =
    let rest = cons_to x (drop_subject s xs) in
    if str_eq x.name s.name && same_type x.type s.type then some xs else rest

abbrev pub put_subjects : Binding → Option (List Subject) → Option Binding
put_subjects b none = none
put_subjects b (some ss) = some (record b { subjects = ss })

unfoldable pub remove_subject_from_binding : Manager → String → String → Subject → Manager × Status
unfolding change drop_subject
remove_subject_from_binding m namespace name s = settle set_bindings m (
    change binding_key (namespace, name) (λ b. put_subjects b (drop_subject s b.subjects))
      m.role_bindings)

unfoldable pub create_cluster_role_binding : Manager → Binding → ℕ → Manager × Status
unfolding insert
create_cluster_role_binding m b now =
    settle set_cluster_bindings m
      (insert cluster_binding_key 500 (stamped_binding "" now b) m.cluster_role_bindings)

unfoldable pub get_cluster_role_binding : Manager → String → Option Binding
unfolding find
get_cluster_role_binding m name = find cluster_binding_key name m.cluster_role_bindings

unfoldable pub update_cluster_role_binding : Manager → Binding → Manager × Status
unfolding change
update_cluster_role_binding m b =
    settle set_cluster_bindings m (
      change cluster_binding_key b.name (λ old. some (scoped_binding "" b)) m.cluster_role_bindings)

unfoldable pub delete_cluster_role_binding : Manager → String → Manager × Status
unfolding drop
delete_cluster_role_binding m name =
    settle set_cluster_bindings m (drop cluster_binding_key name m.cluster_role_bindings)

-- The log without its oldest entry where it is full.
abbrev pub make_room : List AuditEvent → List AuditEvent
make_room [] = []
make_room (e ∷ es) = if leb 10000 (length (e ∷ es)) then es else e ∷ es

unfoldable pub log_audit : Manager → AuditEvent → ℕ → Manager
log_audit m e now = record m {
  audit_logs = make_room m.audit_logs ++ record e { timestamp = now } ∷ [];
}

abbrev pub is_of : Option String → AuditEvent → Bool
is_of none e = true
is_of (some user_filter) e = str_eq e.user user_filter

unfoldable pub get_audit_logs : Manager → Option String → List AuditEvent
get_audit_logs m user_filter = filter (is_of user_filter) m.audit_logs

-- The second component is how many entries go; `none` where the age is not positive.
unfoldable pub clear_old_audit_logs : Manager → ℕ → ℕ → Option (Manager × ℕ)
clear_old_audit_logs m max_age_seconds now =
    let kept = filter (λ e. not (ltb e.timestamp (now - max_age_seconds))) m.audit_logs in
    if leb max_age_seconds 0
    then none
    else some (record m { audit_logs = kept }, length m.audit_logs - length kept)

abbrev pub wildcard_rule : Rule
wildcard_rule = record {
  api_groups = "*" ∷ [];
  resources = "*" ∷ [];
  verbs = "*" ∷ [];
  resource_names = [];
  subresources = [];
}

abbrev pub admin_role : Role
admin_role = record {
  name = "system:masters";
  namespace = "";
  rules = wildcard_rule ∷ [];
  aggregation_labels = [];
  created_at = 0;
  created_by = "";
}

unfoldable pub create_default_roles : Manager → ℕ → Manager × Status
unfolding create_cluster_role
create_default_roles m now = create_cluster_role m admin_role now

abbrev pub no_entries : Manager
no_entries = record {
  roles = [];
  role_bindings = [];
  cluster_roles = [];
  cluster_role_bindings = [];
  audit_logs = [];
  running = true;
}

unfoldable pub init : ℕ → Manager × Status
unfolding create_default_roles
init now = create_default_roles no_entries now

unfoldable pub shutdown : Manager → Manager
shutdown m = record m { running = false }

abbrev pub one_subject : String → String → SubjectType → String → Binding
one_subject name role_name type subject = record {
  name = name;
  namespace = "";
  subjects = record { type = type; name = subject; namespace = "" } ∷ [];
  role_name = role_name;
  role_kind = "ClusterRole";
  created_at = 0;
  created_by = "";
}

unfoldable pub create_admin_binding : Manager → String → ℕ → Manager × Status
unfolding create_cluster_role_binding
create_admin_binding m name now =
    create_cluster_role_binding m
      (one_subject (str_append "admin-" name) "system:masters" user name) now

unfoldable pub create_readonly_binding : Manager → String → ℕ → Manager × Status
unfolding create_cluster_role_binding
create_readonly_binding m name now =
    create_cluster_role_binding m
      (one_subject (str_append "readonly-" name) "system:unauthenticated" group name) now

-- At most 10 texts are copied.
abbrev pub first_ten : ℕ → List String → List String
first_ten zero xs = []
first_ten (suc n) [] = []
first_ten (suc n) (x ∷ xs) = x ∷ first_ten n xs

abbrev pub texts_of : Option (List String) → List String
texts_of none = []
texts_of (some xs) = first_ten 10 xs

abbrev pub one_text : Option String → List String
one_text none = []
one_text (some x) = x ∷ []

unfoldable pub create_rule_for_resources :
    Option String → Option (List String) → Option (List String) → Bool → Rule
create_rule_for_resources api_group resources verbs allow_all_names = record {
  api_groups = one_text api_group;
  resources = texts_of resources;
  verbs = texts_of verbs;
  resource_names = if allow_all_names then "*" ∷ [] else [];
  subresources = [];
}
