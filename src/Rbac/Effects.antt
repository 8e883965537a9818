-- ===== src/Rbac/Effects.antt =====
-- Each call of the manager of sirah/internal/rbac/rbac_manager.c is one operation on one of its arrays,
-- and a change of an entry keeps its key.
use sirah_c.Prelude.{ℕ, ◌≡◌, refl, ap, sym, ◌∙◌, inl, inr, some, String, Option-cases, arith}
use sirah_c.Table.{Key, string_key, pair_key}
use sirah_c.Table.Cases.{KeepsKey}
use sirah_c.Table.Refinement.{table_step, IsKeyed}
use sirah_c.Rbac.{
  Status, Subject, Rule, Manager, role_key, cluster_role_key, binding_key, cluster_binding_key,
  settle, set_roles, set_cluster_roles, set_bindings, set_cluster_bindings, scoped_role, with_rule,
  drop_rule, put_rules, create_role, update_role, delete_role, add_rule_to_role,
  remove_rule_from_role, create_cluster_role, update_cluster_role, delete_cluster_role,
}
use sirah_c.Rbac.Bindings.{
  scoped_binding, with_subject, drop_subject, put_subjects, create_role_binding,
  update_role_binding, delete_role_binding, add_subject_to_binding, remove_subject_from_binding,
  create_cluster_role_binding, update_cluster_role_binding, delete_cluster_role_binding,
}
use sirah_c.Rbac.Calls.{
  Call, creates_role, updates_role, deletes_role, adds_rule, removes_rule, creates_cluster_role,
  updates_cluster_role, deletes_cluster_role, creates_binding, updates_binding, deletes_binding,
  adds_subject, removes_subject, creates_cluster_binding, updates_cluster_binding,
  deletes_cluster_binding, call, Effect, on_roles, on_cluster_roles, on_bindings,
  on_cluster_bindings, effect,
}

-- The arrays' form of an effect.
abbrev pub array_step : Manager → Effect → Manager × Status
array_step m (on_roles c) = settle set_roles m (table_step role_key 1000 m.roles c)
array_step m (on_cluster_roles c) =
    settle set_cluster_roles m (table_step cluster_role_key 200 m.cluster_roles c)
array_step m (on_bindings c) = settle set_bindings m (table_step binding_key 2000 m.role_bindings c)
array_step m (on_cluster_bindings c) =
    settle set_cluster_bindings m (table_step cluster_binding_key 500 m.cluster_role_bindings c)

abbrev pub HasKeyedCommand : Effect → Type 0
HasKeyedCommand (on_roles c) = IsKeyed role_key c
HasKeyedCommand (on_cluster_roles c) = IsKeyed cluster_role_key c
HasKeyedCommand (on_bindings c) = IsKeyed binding_key c
HasKeyedCommand (on_cluster_bindings c) = IsKeyed cluster_binding_key c

pub call-effect : (m : Manager) (c : Call) → call m c ≡ array_step m (effect c)
unfolding call effect create_role update_role delete_role add_rule_to_role remove_rule_from_role
    create_cluster_role update_cluster_role delete_cluster_role create_role_binding
    update_role_binding delete_role_binding add_subject_to_binding remove_subject_from_binding
    create_cluster_role_binding update_cluster_role_binding delete_cluster_role_binding
call-effect m (creates_role _ _ _) = refl
call-effect m (updates_role _ _) = refl
call-effect m (deletes_role _ _) = refl
call-effect m (adds_rule _ _ _) = refl
call-effect m (removes_rule _ _ _) = refl
call-effect m (creates_cluster_role _ _) = refl
call-effect m (updates_cluster_role _) = refl
call-effect m (deletes_cluster_role _) = refl
call-effect m (creates_binding _ _ _) = refl
call-effect m (updates_binding _ _) = refl
call-effect m (deletes_binding _ _) = refl
call-effect m (adds_subject _ _ _) = refl
call-effect m (removes_subject _ _ _) = refl
call-effect m (creates_cluster_binding _ _) = refl
call-effect m (updates_cluster_binding _) = refl
call-effect m (deletes_cluster_binding _) = refl

with_rule-KeepsKey : (rule : Rule) (q : String × String) → KeepsKey role_key q (with_rule rule)
with_rule-KeepsKey rule q e e' at_q h = ground arith

put_rules-KeepsKey :
    (i : ℕ) (q : String × String) → KeepsKey role_key q (λ r. put_rules r (drop_rule i r.rules))
put_rules-KeepsKey i q e e' at_q h = elim (Option-cases (drop_rule i e.rules)) [
  | inl out ↦ absurd (ground arith)
  | inr (rs, kept) ↦ ground arith
]

with_subject-KeepsKey :
    (s : Subject) (q : String × String) → KeepsKey binding_key q (with_subject s)
with_subject-KeepsKey s q e e' at_q h = ground arith

put_subjects-KeepsKey :
    (s : Subject) (q : String × String)
    → KeepsKey binding_key q (λ b. put_subjects b (drop_subject s b.subjects))
put_subjects-KeepsKey s q e e' at_q h = elim (Option-cases (drop_subject s e.subjects)) [
  | inl out ↦ absurd (ground arith)
  | inr (rs, kept) ↦ ground arith
]

-- An entry that is replaced as a whole.
some-KeepsKey :
    {K : Type 0} {A : Type 0} ⦃k : Key K⦄ (key : A → K) (x : A)
    → KeepsKey key (key x) (λ old. some x)
some-KeepsKey key x e e' at_q h = ap key (ground arith) ∙ sym at_q

pub effect-HasKeyedCommand : (c : Call) → HasKeyedCommand (effect c)
unfolding effect
effect-HasKeyedCommand (creates_role _ _ _) = tt
effect-HasKeyedCommand (updates_role namespace r) = some-KeepsKey role_key (scoped_role namespace r)
effect-HasKeyedCommand (deletes_role _ _) = tt
effect-HasKeyedCommand (adds_rule namespace name rule) = with_rule-KeepsKey rule (namespace, name)
effect-HasKeyedCommand (removes_rule namespace name i) = put_rules-KeepsKey i (namespace, name)
effect-HasKeyedCommand (creates_cluster_role _ _) = tt
effect-HasKeyedCommand (updates_cluster_role r) = some-KeepsKey cluster_role_key (scoped_role "" r)
effect-HasKeyedCommand (deletes_cluster_role _) = tt
effect-HasKeyedCommand (creates_binding _ _ _) = tt
effect-HasKeyedCommand (updates_binding namespace b) =
    some-KeepsKey binding_key (scoped_binding namespace b)
effect-HasKeyedCommand (deletes_binding _ _) = tt
effect-HasKeyedCommand (adds_subject namespace name s) = with_subject-KeepsKey s (namespace, name)
effect-HasKeyedCommand (removes_subject namespace name s) =
    put_subjects-KeepsKey s (namespace, name)
effect-HasKeyedCommand (creates_cluster_binding _ _) = tt
effect-HasKeyedCommand (updates_cluster_binding b) =
    some-KeepsKey cluster_binding_key (scoped_binding "" b)
effect-HasKeyedCommand (deletes_cluster_binding _) = tt
