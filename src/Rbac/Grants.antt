-- ===== src/Rbac/Grants.antt =====
-- Requests that `rbac_can_perform_action` of sirah/internal/rbac/rbac_manager.c lets through.
use mathlib.Core.List.{Memᴰ}
use mathlib.Core.List.Memᴰ.{append_right}
use Prim.Native.String.{◌++◌ as str_append}
use sirah_c.Prelude.{ℕ, ◌≡◌, inl, refl, Option, none, some, [], arith}
use sirah_c.Table.{insert, string_key, pair_key}
use sirah_c.Rbac.{
  ok, allow, user, Role, Manager, get_cluster_role, settle, set_cluster_bindings,
  cluster_binding_key,
}
use sirah_c.Rbac.Policy.{Request, can_perform_action}
use sirah_c.Rbac.Bindings.{
  create_admin_binding, create_cluster_role_binding, wildcard_rule, stamped_binding, one_subject,
}
use sirah_c.Rbac.Calls.{
  Call, creates_role, creates_cluster_role, creates_binding, creates_cluster_binding, updates_role,
  deletes_role, adds_rule, removes_rule, updates_cluster_role, deletes_cluster_role,
  updates_binding, deletes_binding, adds_subject, removes_subject, updates_cluster_binding,
  deletes_cluster_binding, call,
}
use sirah_c.Rbac.Covering.{Covers, IsNamed}
use sirah_c.Rbac.Access.{can_perform_action-allow_iff}
use sirah_c.Rbac.Extension.{
  insert-append, Extends, Extends-allow, create_role-Extends, create_cluster_role-Extends,
  create_role_binding-Extends, create_cluster_role_binding-Extends,
}

abbrev pub IsCreation : Call → Type 0
IsCreation (creates_role _ _ _) = Unit
IsCreation (creates_cluster_role _ _) = Unit
IsCreation (creates_binding _ _ _) = Unit
IsCreation (creates_cluster_binding _ _) = Unit
IsCreation _ = ⊥

creation-Extends : (m : Manager) (c : Call) → IsCreation c → Extends m (call m c).0
unfolding call
creation-Extends m (creates_role namespace r now) made = create_role-Extends m namespace r now
creation-Extends m (creates_cluster_role r now) made = create_cluster_role-Extends m r now
creation-Extends m (creates_binding namespace b now) made =
    create_role_binding-Extends m namespace b now
creation-Extends m (creates_cluster_binding b now) made =
    create_cluster_role_binding-Extends m b now
creation-Extends m (updates_role _ _) made = elim made [ ]
creation-Extends m (deletes_role _ _) made = elim made [ ]
creation-Extends m (adds_rule _ _ _) made = elim made [ ]
creation-Extends m (removes_rule _ _ _) made = elim made [ ]
creation-Extends m (updates_cluster_role _) made = elim made [ ]
creation-Extends m (deletes_cluster_role _) made = elim made [ ]
creation-Extends m (updates_binding _ _) made = elim made [ ]
creation-Extends m (deletes_binding _ _) made = elim made [ ]
creation-Extends m (adds_subject _ _ _) made = elim made [ ]
creation-Extends m (removes_subject _ _ _) made = elim made [ ]
creation-Extends m (updates_cluster_binding _) made = elim made [ ]
creation-Extends m (deletes_cluster_binding _) made = elim made [ ]

-- A call that creates a role or a binding, with or without success, takes no right away: a request that
-- is allowed before it is allowed after it.
pub creation_keeps_allow :
    (m : Manager) (c : Call) (q : Request)
    → IsCreation c
    → (can_perform_action m q).decision ≡ allow
    → (can_perform_action (call m c).0 q).decision ≡ allow
creation_keeps_allow m c q made = Extends-allow m (call m c).0 q (creation-Extends m c made)

settle-ok :
    {X : Type 0} (set : Manager → X → Manager) (m : Manager) (o : Option X)
    → (settle set m o).1 ≡ ok
    → (x : X) × (o ≡ some x)
settle-ok set m none h = absurd (ground arith)
settle-ok set m (some x) h = (x, refl)

wildcard_rule-Covers : (q : Request) → Covers q wildcard_rule
wildcard_rule-Covers q = record {
  api_group = inl (Memᴰ.head refl);
  resource = inl (Memᴰ.head refl);
  verb = inl (Memᴰ.head refl);
  name = elim q.resource_name as (λ n. IsNamed n []) [ none ↦ tt | some name ↦ inl refl ];
}

-- Where the cluster role `system:masters` has the rule of three wildcards, a user for whom an admin
-- binding is created is allowed every request.
pub create_admin_binding_allows :
    (m : Manager) (r : Role) (q : Request) (now : ℕ)
    → get_cluster_role m "system:masters" ≡ some r
    → Memᴰ wildcard_rule r.rules
    → (create_admin_binding m q.user now).1 ≡ ok
    → (can_perform_action (create_admin_binding m q.user now).0 q).decision ≡ allow
unfolding create_admin_binding create_cluster_role_binding get_cluster_role
create_admin_binding_allows m r q now role all done =
    let b =
      stamped_binding "" now
        (one_subject (str_append "admin-" q.user) "system:masters" user q.user) in
    let made =
      settle-ok set_cluster_bindings m (insert cluster_binding_key 500 b m.cluster_role_bindings)
        done in
    rw made.1 (
      (can_perform_action-allow_iff (record m { cluster_role_bindings = made.0 }) q).1 (
        inl (
          b,
          rw (insert-append cluster_binding_key 500 b m.cluster_role_bindings made.0 made.1)
              (append_right m.cluster_role_bindings (Memᴰ.head refl)),
          (
            (
              record { type = user; name = q.user; namespace = "" },
              Memᴰ.head refl,
              inl (refl, refl),
            ),
            (r, wildcard_rule, role, all, wildcard_rule-Covers q),
          ),
        )))
