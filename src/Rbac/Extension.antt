-- ===== src/Rbac/Extension.antt =====
-- States of the manager of sirah/internal/rbac/rbac_manager.c in which the roles and bindings of another
-- one are found again, as a creation leaves them.
use mathlib.Core.List.{Memᴰ}
use mathlib.Core.List.Memᴰ.{append_left}
use sirah_c.Prelude.{
  ℕ, ◌≡◌, inl, inr, refl, ◌∙◌, some, List, [], ◌∷◌, ◌++◌, String, arith, Bool-cases, Option-cases,
  leb, length, is_some,
}
use sirah_c.Table.{Key, find, insert, string_key, pair_key}
use sirah_c.Table.Laws.{find-append}
use sirah_c.Rbac.{
  allow, Role, Binding, Manager, get_role, get_cluster_role, create_role, create_cluster_role,
  role_key, cluster_role_key, stamped_role, binding_key, cluster_binding_key,
}
use sirah_c.Rbac.Policy.{Request, can_perform_action}
use sirah_c.Rbac.Bindings.{create_role_binding, create_cluster_role_binding, stamped_binding}
use sirah_c.Rbac.Access.{can_perform_action-allow_iff}

pub insert-append :
    {K : Type 0} {A : Type 0} ⦃k : Key K⦄ (key : A → K) (capacity : ℕ) (e : A) (es es' : List A)
    → insert key capacity e es ≡ some es'
    → es' ≡ es ++ e ∷ []
unfolding insert
insert-append key capacity e es es' h = elim (Bool-cases (leb capacity (length es))) [
  | inl full ↦ absurd (ground arith)
  | inr room ↦ elim (Bool-cases (is_some (find key (key e) es))) [
    | inl there ↦ absurd (ground arith)
    | inr fresh ↦ ground arith
  ]
]

insert-find :
    {K : Type 0} {A : Type 0} ⦃k : Key K⦄ (key : A → K) (capacity : ℕ) (e : A) (es es' : List A)
    (q : K) (x : A)
    → insert key capacity e es ≡ some es'
    → find key q es ≡ some x
    → find key q es' ≡ some x
insert-find key capacity e es es' q x h there =
    rw (insert-append key capacity e es es' h) (find-append key q es e ∙ rw there refl)

-- Another state in which each binding's roles and the bindings of before are found again.
pub record Extends (m m' : Manager) : Type 0 where
  pub bindings : (b : Binding) → Memᴰ b m.role_bindings → Memᴰ b m'.role_bindings
  pub cluster_bindings :
      (b : Binding) → Memᴰ b m.cluster_role_bindings → Memᴰ b m'.cluster_role_bindings
  pub roles :
      (namespace name : String) (r : Role)
      → get_role m namespace name ≡ some r
      → get_role m' namespace name ≡ some r
  pub cluster_roles :
      (name : String) (r : Role)
      → get_cluster_role m name ≡ some r
      → get_cluster_role m' name ≡ some r

pub keeps_all : (m : Manager) → Extends m m
keeps_all m = record {
  bindings = λ b h. h;
  cluster_bindings = λ b h. h;
  roles = λ namespace name r h. h;
  cluster_roles = λ name r h. h;
}

pub Extends-allow :
    (m m' : Manager) (q : Request)
    → Extends m m'
    → (can_perform_action m q).decision ≡ allow
    → (can_perform_action m' q).decision ≡ allow
Extends-allow m m' q more allowed =
    (can_perform_action-allow_iff m' q).1 (elim ((can_perform_action-allow_iff m q).0 allowed) [
      | inl (b, listed, (from, (r, rule, found, of_role, covers))) ↦ inl (
        b,
        more.cluster_bindings b listed,
        (from, (r, rule, more.cluster_roles b.role_name r found, of_role, covers)),
      )
      | inr (b, namespace, scope, listed, local, (from, (r, rule, found, of_role, covers))) ↦ inr (
        b,
        namespace,
        scope,
        more.bindings b listed,
        local,
        (from, (r, rule, more.roles namespace b.role_name r found, of_role, covers)),
      )
    ])

pub create_role-Extends :
    (m : Manager) (namespace : String) (r : Role) (now : ℕ)
    → Extends m (create_role m namespace r now).0
unfolding create_role get_role get_cluster_role
create_role-Extends m namespace r now =
    elim (Option-cases (insert role_key 1000 (stamped_role namespace now r) m.roles)) [
      | inl refused ↦ rw refused (keeps_all m)
      | inr (rs, made) ↦ rw made (record {
        bindings = λ b h. h;
        cluster_bindings = λ b h. h;
        roles = λ s name x h.
            insert-find role_key 1000 (stamped_role namespace now r) m.roles rs (s, name) x made h;
        cluster_roles = λ name x h. h;
      })
    ]

pub create_cluster_role-Extends :
    (m : Manager) (r : Role) (now : ℕ) → Extends m (create_cluster_role m r now).0
unfolding create_cluster_role get_role get_cluster_role
create_cluster_role-Extends m r now =
    elim (Option-cases (insert cluster_role_key 200 (stamped_role "" now r) m.cluster_roles)) [
      | inl refused ↦ rw refused (keeps_all m)
      | inr (rs, made) ↦ rw made (record {
        bindings = λ b h. h;
        cluster_bindings = λ b h. h;
        roles = λ s name x h. h;
        cluster_roles = λ name x h.
            insert-find cluster_role_key 200 (stamped_role "" now r) m.cluster_roles rs name x made
              h;
      })
    ]

pub create_role_binding-Extends :
    (m : Manager) (namespace : String) (b : Binding) (now : ℕ)
    → Extends m (create_role_binding m namespace b now).0
unfolding create_role_binding get_role get_cluster_role
create_role_binding-Extends m namespace b now =
    elim (Option-cases
      (insert binding_key 2000 (stamped_binding namespace now b) m.role_bindings)) [
        | inl refused ↦ rw refused (keeps_all m)
        | inr (bs, made) ↦ rw made (record {
          bindings = λ x h.
              rw
                (insert-append binding_key 2000 (stamped_binding namespace now b) m.role_bindings bs
                  made)
                (append_left (stamped_binding namespace now b ∷ []) h);
          cluster_bindings = λ x h. h;
          roles = λ s name x h. h;
          cluster_roles = λ name x h. h;
        })
      ]

pub create_cluster_role_binding-Extends :
    (m : Manager) (b : Binding) (now : ℕ) → Extends m (create_cluster_role_binding m b now).0
unfolding create_cluster_role_binding get_role get_cluster_role
create_cluster_role_binding-Extends m b now =
    elim (Option-cases
      (insert cluster_binding_key 500 (stamped_binding "" now b) m.cluster_role_bindings)) [
        | inl refused ↦ rw refused (keeps_all m)
        | inr (bs, made) ↦ rw made (record {
          bindings = λ x h. h;
          cluster_bindings = λ x h.
              rw
                (insert-append cluster_binding_key 500 (stamped_binding "" now b)
                  m.cluster_role_bindings bs made)
                (append_left (stamped_binding "" now b ∷ []) h);
          roles = λ s name x h. h;
          cluster_roles = λ name x h. h;
        })
      ]
