-- ===== src/Rbac/Denials.antt =====
-- Requests that `rbac_can_perform_action` of sirah/internal/rbac/rbac_manager.c turns away.
use mathlib.Core.List.{Memᴰ}
use mathlib.Core.List.Memᴰ.{not-nil, eq_of_singleton}
use sirah_c.Prelude.{
  ℕ, ◌≡◌, ◌⊎◌, inl, inr, refl, sym, subst, ◌∙◌, Option, none, some, [], String, arith,
}
use sirah_c.Rbac.{
  allow, deny, user, group, service_account, Subject, Binding, Manager, get_role, get_cluster_role,
  role_key,
}
use sirah_c.Table.{find, string_key, pair_key}
use sirah_c.Rbac.Policy.{
  Request, decide, first_of, cluster_grant, namespace_grant, can_perform_action,
}
use sirah_c.Rbac.Bindings.{init, create_readonly_binding}
use sirah_c.Rbac.Access.{IsFrom, HasClusterGrant, HasNamespaceGrant, can_perform_action-allow_iff}

decide-cases :
    (q : Request) (o : Option String)
    → ((decide q o).decision ≡ allow) ⊎ ((decide q o).decision ≡ deny)
decide-cases q none = inr refl
decide-cases q (some x) = inl refl

-- Without a grant the answer is to deny.
ungranted_denied :
    (m : Manager) (q : Request)
    → ¬ HasClusterGrant m q
    → ¬ HasNamespaceGrant m q
    → (can_perform_action m q).decision ≡ deny
unfolding can_perform_action
ungranted_denied m q no_cluster no_local =
    elim (decide-cases q (first_of (cluster_grant m q) (namespace_grant m q))) [
      | inl allowed ↦ elim ((can_perform_action-allow_iff m q).0 allowed) [
        | inl g ↦ absurd (no_cluster g)
        | inr g ↦ absurd (no_local g)
      ]
      | inr denied ↦ denied
    ]

not-IsFrom : (q : Request) (s : Subject) → s.type ≡ service_account → ¬ IsFrom q s
not-IsFrom q s is_account (inl (is_user, named)) =
    let e : service_account ≡ user = sym is_account ∙ is_user in absurd (ground arith)
not-IsFrom q s is_account (inr (is_group, named)) =
    let e : service_account ≡ group = sym is_account ∙ is_group in absurd (ground arith)

-- Where every subject of every binding is a service account, every request is denied.
pub service_accounts_denied :
    (m : Manager) (q : Request)
    → ((b : Binding) (s : Subject)
        → Memᴰ b m.cluster_role_bindings ⊎ Memᴰ b m.role_bindings
        → Memᴰ s b.subjects
        → s.type ≡ service_account)
    → (can_perform_action m q).decision ≡ deny
service_accounts_denied m q only =
    ungranted_denied m q (λ g. not-IsFrom q g.2.0.0 (only g.0 g.2.0.0 (inl g.1) g.2.0.1) g.2.0.2)
      (λ g. not-IsFrom q g.5.0.0 (only g.0 g.5.0.0 (inr g.3) g.5.0.1) g.5.0.2)

-- Where there is no cluster binding and no role in a namespace, every request is denied, though the
-- bindings of the namespaces may refer to cluster roles.
pub local_cluster_roles_denied :
    (m : Manager) (q : Request)
    → m.cluster_role_bindings ≡ []
    → m.roles ≡ []
    → (can_perform_action m q).decision ≡ deny
unfolding get_role find
local_cluster_roles_denied m q no_bindings no_roles =
    ungranted_denied m q (λ g. not-nil (subst (λ bs. Memᴰ g.0 bs) no_bindings g.1))
      (λ g.
        let found : find role_key (g.1, g.0.role_name) [] ≡ some g.5.1.0 =
          subst (λ rs. find role_key (g.1, g.0.role_name) rs ≡ some g.5.1.0) no_roles g.5.1.2 in
        absurd (ground arith))

-- A manager that has been initialized and given a binding of read access, and nothing else, denies every
-- request, of the members of that group too: the role that the binding names is never made.
pub create_readonly_binding_denied :
    (q : Request) (name : String) (now later : ℕ)
    → (can_perform_action (create_readonly_binding (init now).0 name later).0 q).decision ≡ deny
unfolding create_readonly_binding init get_cluster_role find
create_readonly_binding_denied q name now later =
    ungranted_denied (create_readonly_binding (init now).0 name later).0 q
      (λ g.
        let found : none ≡ some g.2.1.0 =
          subst
            (λ b.
              get_cluster_role (create_readonly_binding (init now).0 name later).0 b.role_name
              ≡ some g.2.1.0)
            (eq_of_singleton g.1) g.2.1.2 in
        absurd (ground arith))
      (λ g. not-nil g.3)
