-- ===== src/Rbac/Calls.antt =====
-- Calls of the manager of sirah/internal/rbac/rbac_manager.c that change a role or a binding, and what
-- they promise: four finite maps of limited size. The entries' order in the arrays is forgotten.
use sirah_c.Prelude.{ℕ, some, List, [], ◌∷◌, String}
use sirah_c.Table.{string_key, pair_key}
use sirah_c.Table.Refinement.{Finite, Command, creates, changes, deletes, abstract_step, view}
use sirah_c.Rbac.{
  Status, Subject, Rule, Role, Binding, Manager, role_key, cluster_role_key, binding_key,
  cluster_binding_key, settle, scoped_role, stamped_role, with_rule, drop_rule, put_rules,
  create_role, update_role, delete_role, add_rule_to_role, remove_rule_from_role,
  create_cluster_role, update_cluster_role, delete_cluster_role,
}
use sirah_c.Rbac.Bindings.{
  scoped_binding, stamped_binding, with_subject, drop_subject, put_subjects, create_role_binding,
  update_role_binding, delete_role_binding, add_subject_to_binding, remove_subject_from_binding,
  create_cluster_role_binding, update_cluster_role_binding, delete_cluster_role_binding,
}

pub data Call : Type 0 where
  creates_role : String → Role → ℕ → Call
  updates_role : String → Role → Call
  deletes_role : String → String → Call
  adds_rule : String → String → Rule → Call
  removes_rule : String → String → ℕ → Call
  creates_cluster_role : Role → ℕ → Call
  updates_cluster_role : Role → Call
  deletes_cluster_role : String → Call
  creates_binding : String → Binding → ℕ → Call
  updates_binding : String → Binding → Call
  deletes_binding : String → String → Call
  adds_subject : String → String → Subject → Call
  removes_subject : String → String → Subject → Call
  creates_cluster_binding : Binding → ℕ → Call
  updates_cluster_binding : Binding → Call
  deletes_cluster_binding : String → Call

unfoldable pub call : Manager → Call → Manager × Status
call m (creates_role namespace r now) = create_role m namespace r now
call m (updates_role namespace r) = update_role m namespace r
call m (deletes_role namespace name) = delete_role m namespace name
call m (adds_rule namespace name rule) = add_rule_to_role m namespace name rule
call m (removes_rule namespace name i) = remove_rule_from_role m namespace name i
call m (creates_cluster_role r now) = create_cluster_role m r now
call m (updates_cluster_role r) = update_cluster_role m r
call m (deletes_cluster_role name) = delete_cluster_role m name
call m (creates_binding namespace b now) = create_role_binding m namespace b now
call m (updates_binding namespace b) = update_role_binding m namespace b
call m (deletes_binding namespace name) = delete_role_binding m namespace name
call m (adds_subject namespace name s) = add_subject_to_binding m namespace name s
call m (removes_subject namespace name s) = remove_subject_from_binding m namespace name s
call m (creates_cluster_binding b now) = create_cluster_role_binding m b now
call m (updates_cluster_binding b) = update_cluster_role_binding m b
call m (deletes_cluster_binding name) = delete_cluster_role_binding m name

unfoldable pub run : Manager → List Call → Manager × List Status
run m [] = (m, [])
run m (c ∷ cs) = let after = run (call m c).0 cs in (after.0, (call m c).1 ∷ after.1)

-- What the manager promises to keep.
pub record Rights : Type 0 where
  pub roles : Finite (String × String) Role
  pub cluster_roles : Finite String Role
  pub bindings : Finite (String × String) Binding
  pub cluster_bindings : Finite String Binding

pub data Effect : Type 0 where
  on_roles : Command (String × String) Role → Effect
  on_cluster_roles : Command String Role → Effect
  on_bindings : Command (String × String) Binding → Effect
  on_cluster_bindings : Command String Binding → Effect

unfoldable pub effect : Call → Effect
effect (creates_role namespace r now) = on_roles (creates (stamped_role namespace now r))
effect (updates_role namespace r) =
    on_roles (changes (namespace, r.name) (λ old. some (scoped_role namespace r)))
effect (deletes_role namespace name) = on_roles (deletes (namespace, name))
effect (adds_rule namespace name rule) = on_roles (changes (namespace, name) (with_rule rule))
effect (removes_rule namespace name i) =
    on_roles (changes (namespace, name) (λ r. put_rules r (drop_rule i r.rules)))
effect (creates_cluster_role r now) = on_cluster_roles (creates (stamped_role "" now r))
effect (updates_cluster_role r) = on_cluster_roles (changes r.name (λ old. some (scoped_role "" r)))
effect (deletes_cluster_role name) = on_cluster_roles (deletes name)
effect (creates_binding namespace b now) = on_bindings (creates (stamped_binding namespace now b))
effect (updates_binding namespace b) =
    on_bindings (changes (namespace, b.name) (λ old. some (scoped_binding namespace b)))
effect (deletes_binding namespace name) = on_bindings (deletes (namespace, name))
effect (adds_subject namespace name s) = on_bindings (changes (namespace, name) (with_subject s))
effect (removes_subject namespace name s) =
    on_bindings (changes (namespace, name) (λ b. put_subjects b (drop_subject s b.subjects)))
effect (creates_cluster_binding b now) = on_cluster_bindings (creates (stamped_binding "" now b))
effect (updates_cluster_binding b) =
    on_cluster_bindings (changes b.name (λ old. some (scoped_binding "" b)))
effect (deletes_cluster_binding name) = on_cluster_bindings (deletes name)

unfoldable pub spec_step : Rights → Effect → Rights × Status
spec_step s (on_roles c) =
    settle (λ s' f. record s' { roles = f }) s (abstract_step role_key 1000 s.roles c)
spec_step s (on_cluster_roles c) =
    settle (λ s' f. record s' { cluster_roles = f }) s
      (abstract_step cluster_role_key 200 s.cluster_roles c)
spec_step s (on_bindings c) =
    settle (λ s' f. record s' { bindings = f }) s (abstract_step binding_key 2000 s.bindings c)
spec_step s (on_cluster_bindings c) =
    settle (λ s' f. record s' { cluster_bindings = f }) s
      (abstract_step cluster_binding_key 500 s.cluster_bindings c)

unfoldable pub spec_run : Rights → List Call → Rights × List Status
unfolding spec_step effect
spec_run s [] = (s, [])
spec_run s (c ∷ cs) =
    let after = spec_run (spec_step s (effect c)).0 cs in
    (after.0, (spec_step s (effect c)).1 ∷ after.1)

unfoldable pub rights : Manager → Rights
rights m = record {
  roles = view role_key m.roles;
  cluster_roles = view cluster_role_key m.cluster_roles;
  bindings = view binding_key m.role_bindings;
  cluster_bindings = view cluster_binding_key m.cluster_role_bindings;
}
