-- ===== src/Rbac/Access.antt =====
-- Whom `rbac_can_perform_action` of sirah/internal/rbac/rbac_manager.c lets do what.
use mathlib.Core.List.{Memᴰ}
use mathlib.Core.List.Memᴰ
use sirah_c.Prelude.{
  ◌≡◌, ◌↔◌, ◌⊎◌, inl, inr, refl, subst, ◌∙◌, Bool, true, false, not, Option, none, some, List, [],
  ◌∷◌, String, str_eq, eq_iff, if◌then◌else◌, is_some, arith,
}
use sirah_c.Rbac.{
  allow, SubjectType, user, group, service_account, Subject, Rule, Role, Binding, Manager, get_role,
  get_cluster_role,
}
use sirah_c.Rbac.Policy.{
  Request, any, contains_text, subject_matches, rule_matches, role_allows, first_grant,
  cluster_grant, namespace_grant, grant_in, decide, first_of, can_perform_action,
}
use sirah_c.Rbac.Covering.{any-Memᴰ, Memᴰ-any, Covers, rule_matches_iff}

-- A subject that the request comes from: its user, or a group whose name occurs in the text of the
-- groups.
abbrev pub IsFrom : Request → Subject → Type 0
IsFrom q s =
    ((s.type ≡ user) × (s.name ≡ q.user))
    ⊎ ((s.type ≡ group) × (contains_text q.groups s.name ≡ true))

by_type_iff :
    (t : SubjectType) (a b : Bool)
    → ((elim t as (λ t'. Bool) [ user ↦ a | group ↦ b | service_account ↦ false ]) ≡ true)
      ↔ (((t ≡ user) × (a ≡ true)) ⊎ ((t ≡ group) × (b ≡ true)))
by_type_iff user a b = (λ h. inl (refl, h), λ c. ground arith)
by_type_iff group a b = (λ h. inr (refl, h), λ c. ground arith)
by_type_iff service_account a b = (λ h. absurd (ground arith), λ c. ground arith)

subject_matches_iff : (q : Request) (s : Subject) → (subject_matches q s ≡ true) ↔ IsFrom q s
unfolding subject_matches
subject_matches_iff q s =
    let by_type = by_type_iff s.type (str_eq s.name q.user) (contains_text q.groups s.name) in
    let name = eq_iff s.name q.user in
    (
      λ h. elim (by_type.0 h) [
        | inl (is_user, same) ↦ inl (is_user, name.0 same)
        | inr in_group ↦ inr in_group
      ],
      λ f. by_type.1 (elim f [
        | inl (is_user, same) ↦ inl (is_user, name.1 same)
        | inr in_group ↦ inr in_group
      ]),
    )

-- The binding names a subject that the request comes from, and its role has a rule that covers it.
abbrev pub Grants : Request → Binding → Option Role → Type 0
Grants q b role =
    ((s : Subject) × Memᴰ s b.subjects × IsFrom q s)
    × ((r : Role) × (rule : Rule) × (role ≡ some r) × Memᴰ rule r.rules × Covers q rule)

role_allows-Memᴰ :
    (q : Request) (role : Option Role)
    → role_allows q role ≡ true
    → (r : Role) × (rule : Rule) × (role ≡ some r) × Memᴰ rule r.rules × Covers q rule
role_allows-Memᴰ q none h = absurd (ground arith)
role_allows-Memᴰ q (some r) h =
    let rule = any-Memᴰ (rule_matches q) r.rules h in
    (r, rule.0, refl, rule.1, (rule_matches_iff q rule.0).0 rule.2)

Grants-iff :
    (q : Request) (b : Binding) (role : Option Role)
    → ((any (subject_matches q) b.subjects ≡ true) × (role_allows q role ≡ true)) ↔ Grants q b role
Grants-iff q b role = (
  λ h.
      let s = any-Memᴰ (subject_matches q) b.subjects h.0 in
      ((s.0, s.1, (subject_matches_iff q s.0).0 s.2), role_allows-Memᴰ q role h.1),
  λ g. (
    Memᴰ-any (subject_matches q) b.subjects g.0.0 g.0.1 ((subject_matches_iff q g.0.0).1 g.0.2),
    rw g.1.2
        (Memᴰ-any (rule_matches q) g.1.0.rules g.1.1 g.1.3 ((rule_matches_iff q g.1.1).1 g.1.4)),
  ),
)

grant_step :
    (a b c : Bool) (x : String) (rest : Option String)
    → (is_some (if not a then rest else (if not b then rest else (if c then some x else rest)))
        ≡ true)
      ↔ (((a ≡ true) × (b ≡ true) × (c ≡ true)) ⊎ (is_some rest ≡ true))
grant_step a b c x none = ground arith
grant_step a b c x (some y) = ground arith

-- What the loop over the bindings finds.
first_grant_iff :
    (applies : Binding → Bool) (role_of : Binding → Option Role) (q : Request) (bs : List Binding)
    → (is_some (first_grant applies role_of q bs) ≡ true)
      ↔ ((b : Binding) × Memᴰ b bs × (applies b ≡ true) × Grants q b (role_of b))
unfolding first_grant
first_grant_iff applies role_of q [] = (λ h. absurd (ground arith), λ g. elim g.1 [ ])
first_grant_iff applies role_of q (b ∷ bs) =
    let rest = first_grant_iff applies role_of q bs in
    let step =
      grant_step (applies b) (any (subject_matches q) b.subjects) (role_allows q (role_of b))
        b.role_name (first_grant applies role_of q bs) in
    let here = Grants-iff q b (role_of b) in
    (
      λ h. elim (step.0 h) [
        | inl (fits, from, covered) ↦ (b, Memᴰ.head refl, fits, here.0 (from, covered))
        | inr later ↦ let g = rest.0 later in (g.0, Memᴰ.tail g.1, g.2, g.3)
      ],
      λ g. step.1 (elim (Memᴰ.cases_cons g.1) [
        | inl same ↦
            let fits : applies b ≡ true = subst (λ x. applies x ≡ true) same g.2 in
            let by_b : Grants q b (role_of b) = subst (λ x. Grants q x (role_of x)) same g.3 in
            let both = here.1 by_b in inl (fits, both.0, both.1)
        | inr listed ↦ inr (rest.1 (g.0, listed, g.2, g.3))
      ]),
    )

-- A binding of the cluster that grants the request by a role of the cluster.
abbrev pub HasClusterGrant : Manager → Request → Type 0
HasClusterGrant m q =
    (b : Binding) × Memᴰ b m.cluster_role_bindings × Grants q b (get_cluster_role m b.role_name)

-- A binding of the request's namespace that grants it by a role of that namespace.
abbrev pub HasGrantIn : Manager → Request → Option String → Type 0
HasGrantIn m q scope =
    (b : Binding) × (namespace : String) × (scope ≡ some namespace)
    × Memᴰ b m.role_bindings
    × (b.namespace ≡ namespace)
    × Grants q b (get_role m namespace b.role_name)

abbrev pub HasNamespaceGrant : Manager → Request → Type 0
HasNamespaceGrant m q = HasGrantIn m q q.namespace

cluster_grant_iff :
    (m : Manager) (q : Request) → (is_some (cluster_grant m q) ≡ true) ↔ HasClusterGrant m q
unfolding cluster_grant
cluster_grant_iff m q =
    let loop =
      first_grant_iff (λ b. true) (λ b. get_cluster_role m b.role_name) q m.cluster_role_bindings in
    (λ h. let g = loop.0 h in (g.0, g.1, g.3), λ g. loop.1 (g.0, g.1, refl, g.2))

grant_in_iff :
    (m : Manager) (q : Request) (scope : Option String)
    → (is_some (grant_in m q scope) ≡ true) ↔ HasGrantIn m q scope
unfolding grant_in
grant_in_iff m q none = (λ h. absurd (ground arith), λ g. absurd (ground (arith, g.2)))
grant_in_iff m q (some namespace) =
    let loop =
      first_grant_iff (λ b. str_eq b.namespace namespace) (λ b. get_role m namespace b.role_name) q
        m.role_bindings in
    (
      λ h.
          let g = loop.0 h in
          (g.0, namespace, refl, g.1, (eq_iff g.0.namespace namespace).0 g.2, g.3),
      λ g.
          let same : g.1 ≡ namespace = ground (arith, g.2) in
          loop.1 (
            g.0,
            g.3,
            (eq_iff g.0.namespace namespace).1 (g.4 ∙ same),
            subst (λ n. Grants q g.0 (get_role m n g.0.role_name)) same g.5,
          ),
    )

namespace_grant_iff :
    (m : Manager) (q : Request) → (is_some (namespace_grant m q) ≡ true) ↔ HasNamespaceGrant m q
unfolding namespace_grant
namespace_grant_iff m q = grant_in_iff m q q.namespace

decide-allow_iff :
    (q : Request) (o o' : Option String)
    → ((decide q (first_of o o')).decision ≡ allow) ↔ ((is_some o ≡ true) ⊎ (is_some o' ≡ true))
decide-allow_iff q (some x) o' = (λ h. inl refl, λ g. refl)
decide-allow_iff q none (some y) = (λ h. inr refl, λ g. refl)
decide-allow_iff q none none = (λ h. absurd (ground arith), λ g. absurd (ground arith))

-- A request is allowed exactly when a binding grants it: a binding of the cluster by the cluster role of
-- that name, or a binding of the request's namespace by the role of that name there. Such a binding
-- names the user of the request, or a group whose name occurs in the text of the request's groups, and
-- its role has a rule that lists the API group, the resource, the verb and, where the request has a name
-- and the rule is limited to names, the name, or the wildcard in place of each.
pub can_perform_action-allow_iff :
    (m : Manager) (q : Request)
    → ((can_perform_action m q).decision ≡ allow) ↔ (HasClusterGrant m q ⊎ HasNamespaceGrant m q)
unfolding can_perform_action
can_perform_action-allow_iff m q =
    let either = decide-allow_iff q (cluster_grant m q) (namespace_grant m q) in
    let cluster = cluster_grant_iff m q in
    let local = namespace_grant_iff m q in
    (
      λ h. elim (either.0 h) [
        | inl there ↦ inl (cluster.0 there)
        | inr there ↦ inr (local.0 there)
      ],
      λ g.
          either.1 (elim g [ inl there ↦ inl (cluster.1 there) | inr there ↦ inr (local.1 there) ]),
    )
