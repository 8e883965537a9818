-- ===== src/Rbac/Tests.antt =====
-- The manager of sirah/internal/rbac/rbac_manager.c on concrete roles and bindings.
use mathlib.Core.List.{Memᴰ}
use mathlib.Core.List.Memᴰ.{not-nil, eq_of_singleton}
use sirah_c.Prelude.{
  ◌≡◌, ◌↔◌, ◌⊎◌, inl, inr, refl, ap, subst, none, some, List, [], ◌∷◌, map, arith, ◌++◌,
}
use sirah_c.Rbac.{
  Status, ok, error, Decision, allow, deny, user, group, service_account, Subject, Rule, Role,
  Binding, Manager, AuditEvent, get_cluster_role,
}
use sirah_c.Rbac.Bindings.{
  init, no_entries, create_admin_binding, create_readonly_binding, wildcard_rule,
}
use sirah_c.Rbac.Policy.{Request, can_perform_action}
use sirah_c.Rbac.Calls.{
  Call, creates_role, deletes_role, creates_binding, removes_subject, adds_subject, run, call,
  rights, spec_run,
}
use sirah_c.Rbac.Refinement.{IsWellKeyed, run-refines, run-IsWellKeyed}
use sirah_c.Rbac.Access.{HasClusterGrant, HasNamespaceGrant, can_perform_action-allow_iff}
use sirah_c.Rbac.Audit.{newest, stamped, log_all, log_all_lem}
use sirah_c.Rbac.Denials.{service_accounts_denied}
use sirah_c.Rbac.Grants.{creation_keeps_allow}

abbrev reads_pods : Rule
reads_pods = record {
  api_groups = "" ∷ [];
  resources = "pods" ∷ [];
  verbs = "get" ∷ "list" ∷ [];
  resource_names = "web" ∷ [];
  subresources = [];
}

abbrev reader : Role
reader = record {
  name = "reader";
  namespace = "";
  rules = reads_pods ∷ [];
  aggregation_labels = [];
  created_at = 0;
  created_by = "ops";
}

abbrev ann : Subject
ann = record { type = user; name = "ann"; namespace = "" }

abbrev web_account : Subject
web_account = record { type = service_account; name = "web"; namespace = "prod" }

abbrev readers : Binding
readers = record {
  name = "readers";
  namespace = "";
  subjects = ann ∷ [];
  role_name = "reader";
  role_kind = "Role";
  created_at = 0;
  created_by = "ops";
}

abbrev calls : List Call
calls =
    creates_role "prod" reader 7
    ∷ creates_role "prod" reader 8
    ∷ creates_binding "prod" readers 9
    ∷ adds_subject "prod" "readers" web_account
    ∷ removes_subject "prod" "readers" web_account
    ∷ deletes_role "test" "reader"
    ∷ []

calls_answered : (run (init 5).0 calls).1 ≡ ok ∷ error ∷ ok ∷ ok ∷ ok ∷ error ∷ []
unfolding run call init sirah_c.Rbac.create_role sirah_c.Rbac.Bindings.create_role_binding
    sirah_c.Rbac.Bindings.add_subject_to_binding sirah_c.Rbac.Bindings.remove_subject_from_binding
    sirah_c.Rbac.delete_role
calls_answered = refl

abbrev manager : Manager
manager = (run (init 5).0 calls).0

abbrev request : Request
request = record {
  user = "ann";
  groups = none;
  verb = "get";
  api_group = none;
  resource = "pods";
  namespace = some "prod";
  resource_name = some "web";
}

run-refines_example :
    (rights (run (init 5).0 calls).0, (run (init 5).0 calls).1) ≡ spec_run (rights (init 5).0) calls
run-refines_example = run-refines 5 calls

run-IsWellKeyed_example : IsWellKeyed (run (init 5).0 calls).0
run-IsWellKeyed_example = run-IsWellKeyed 5 calls

abbrev with_reader : Manager
with_reader = record no_entries {
  roles = record reader { namespace = "prod" } ∷ [];
  role_bindings = record readers { namespace = "prod" } ∷ [];
}

ann_allowed : (can_perform_action with_reader request).decision ≡ allow
unfolding can_perform_action
ann_allowed = refl

can_perform_action-allow_iff_example :
    ((can_perform_action with_reader request).decision ≡ allow)
    ↔ (HasClusterGrant with_reader request ⊎ HasNamespaceGrant with_reader request)
can_perform_action-allow_iff_example = can_perform_action-allow_iff with_reader request

abbrev for_account : Manager
for_account = record with_reader {
  role_bindings = record readers { namespace = "prod"; subjects = web_account ∷ [] } ∷ [];
}

account_only :
    (b : Binding) (s : Subject)
    → Memᴰ b for_account.cluster_role_bindings ⊎ Memᴰ b for_account.role_bindings
    → Memᴰ s b.subjects
    → s.type ≡ service_account
account_only b s (inl nowhere) listed = absurd (not-nil nowhere)
account_only b s (inr there) listed =
    ap (λ (x : Subject). x.type)
      (eq_of_singleton (subst (λ (x : Binding). Memᴰ s x.subjects) (eq_of_singleton there) listed))

service_accounts_denied_example :
    (can_perform_action for_account (record request { user = "web" })).decision ≡ deny
service_accounts_denied_example =
    service_accounts_denied for_account (record request { user = "web" }) account_only

abbrev cluster_reader : Manager
cluster_reader = record no_entries {
  cluster_roles = reader ∷ [];
  role_bindings = record readers { namespace = "prod"; role_kind = "ClusterRole" } ∷ [];
}

cluster_reader_denied : (can_perform_action cluster_reader request).decision ≡ deny
unfolding can_perform_action
cluster_reader_denied = refl

creation_keeps_allow_example :
    (can_perform_action (call with_reader (creates_role "test" reader 7)).0 request).decision
    ≡ allow
creation_keeps_allow_example =
    creation_keeps_allow with_reader (creates_role "test" reader 7) request tt ann_allowed

abbrev masters : Role
masters = record reader { name = "system:masters"; rules = wildcard_rule ∷ [] }

abbrev with_masters : Manager
with_masters = record no_entries { cluster_roles = masters ∷ [] }

masters_there : get_cluster_role with_masters "system:masters" ≡ some masters
unfolding get_cluster_role
masters_there = refl

made : (create_admin_binding with_masters "ann" 9).1 ≡ ok
unfolding create_admin_binding
made = refl

abbrev event : AuditEvent
event = record {
  timestamp = 0;
  user = "ann";
  group = "";
  verb = "get";
  api_group = "";
  resource = "pods";
  resource_name = "web";
  namespace = "prod";
  decision = allow;
  reason = "";
  source_ip = "";
}

log_all_lem_example :
    (log_all no_entries ((event, 3) ∷ (event, 4) ∷ [])).audit_logs
    ≡ newest 10000 ([] ++ map stamped ((event, 3) ∷ (event, 4) ∷ []))
log_all_lem_example = log_all_lem no_entries ((event, 3) ∷ (event, 4) ∷ []) (omega arith)
