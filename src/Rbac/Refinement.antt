-- ===== src/Rbac/Refinement.antt =====
-- The manager of sirah/internal/rbac/rbac_manager.c against the four finite maps that it stands for
-- (Rbac/Calls.antt).
use sirah_c.Prelude.{ℕ, ◌≡◌, ◌≤◌, refl, ap, ◌∙◌, inl, inr, Option, List, [], ◌∷◌, length, arith}
use sirah_c.Table.{Key, string_key, pair_key}
use sirah_c.Table.Laws.{IsUnique}
use sirah_c.Table.Refinement.{Finite, abstract_step, table_step, view, Simulates, step-Simulates}
use sirah_c.Rbac.{
  Status, ok, Manager, role_key, cluster_role_key, binding_key, cluster_binding_key, settle,
  set_roles, set_cluster_roles, set_bindings, set_cluster_bindings,
}
use sirah_c.Rbac.Bindings.{init}
use sirah_c.Rbac.Calls.{
  Call, call, run, Rights, Effect, on_roles, on_cluster_roles, on_bindings, on_cluster_bindings,
  effect, spec_step, spec_run, rights,
}
use sirah_c.Rbac.Effects.{array_step, HasKeyedCommand, call-effect, effect-HasKeyedCommand}

-- No two entries of an array have the same key, and no array is over its limit.
pub record IsWellKeyed (m : Manager) : Type 0 where
  pub roles : IsUnique role_key m.roles × (length m.roles ≤ 1000)
  pub cluster_roles : IsUnique cluster_role_key m.cluster_roles × (length m.cluster_roles ≤ 200)
  pub bindings : IsUnique binding_key m.role_bindings × (length m.role_bindings ≤ 2000)
  pub cluster_bindings :
      IsUnique cluster_binding_key m.cluster_role_bindings × (length m.cluster_role_bindings ≤ 500)

module _ {ℓ κ} {K : Type ℓ} {A : Type κ} ⦃k : Key K⦄ (key : A → K) (capacity : ℕ) where
  -- What a settled change of one of the arrays keeps.
  settle_agrees :
      (set : Manager → List A → Manager) (spec_set : Rights → Finite K A → Rights) (m : Manager)
      (es : List A) (o : Option (List A)) (o' : Option (Finite K A))
      → Simulates key capacity es o o'
      → ((es' : List A) → rights (set m es') ≡ spec_set (rights m) (view key es'))
      → length es ≤ capacity
      → ((es' : List A) → IsUnique key es' → length es' ≤ capacity → IsWellKeyed (set m es'))
      → IsWellKeyed m
      → ((rights (settle set m o).0, (settle set m o).1) ≡ settle spec_set (rights m) o')
        × IsWellKeyed (settle set m o).0
  settle_agrees set spec_set m es o o' (inl (refused, refused')) agree within kept sound =
      rw (refused, refused') (refl, sound)
  settle_agrees set spec_set m es o o' (inr (es', done, done', unique, bounded)) agree within kept
        sound =
      rw (done, done') (ap (λ s. (s, ok)) (agree es'), kept es' unique (bounded within))

step-refines :
    (m : Manager) (e : Effect)
    → HasKeyedCommand e
    → IsWellKeyed m
    → ((rights (array_step m e).0, (array_step m e).1) ≡ spec_step (rights m) e)
      × IsWellKeyed (array_step m e).0
unfolding rights spec_step
step-refines m (on_roles c) keyed s =
    settle_agrees role_key 1000 set_roles (λ r f. record r { roles = f }) m m.roles
      (table_step role_key 1000 m.roles c) (abstract_step role_key 1000 (view role_key m.roles) c)
      (step-Simulates role_key 1000 m.roles c s.roles.0 keyed) (λ es. refl) s.roles.1
      (λ es unique within. record {
        roles = (unique, within);
        cluster_roles = s.cluster_roles;
        bindings = s.bindings;
        cluster_bindings = s.cluster_bindings;
      })
      s
step-refines m (on_cluster_roles c) keyed s =
    settle_agrees cluster_role_key 200 set_cluster_roles (λ r f. record r { cluster_roles = f }) m
      m.cluster_roles (table_step cluster_role_key 200 m.cluster_roles c)
      (abstract_step cluster_role_key 200 (view cluster_role_key m.cluster_roles) c)
      (step-Simulates cluster_role_key 200 m.cluster_roles c s.cluster_roles.0 keyed) (λ es. refl)
      s.cluster_roles.1
      (λ es unique within. record {
        roles = s.roles;
        cluster_roles = (unique, within);
        bindings = s.bindings;
        cluster_bindings = s.cluster_bindings;
      })
      s
step-refines m (on_bindings c) keyed s =
    settle_agrees binding_key 2000 set_bindings (λ r f. record r { bindings = f }) m m.role_bindings
      (table_step binding_key 2000 m.role_bindings c)
      (abstract_step binding_key 2000 (view binding_key m.role_bindings) c)
      (step-Simulates binding_key 2000 m.role_bindings c s.bindings.0 keyed) (λ es. refl)
      s.bindings.1
      (λ es unique within. record {
        roles = s.roles;
        cluster_roles = s.cluster_roles;
        bindings = (unique, within);
        cluster_bindings = s.cluster_bindings;
      })
      s
step-refines m (on_cluster_bindings c) keyed s =
    settle_agrees cluster_binding_key 500 set_cluster_bindings
      (λ r f. record r { cluster_bindings = f }) m m.cluster_role_bindings
      (table_step cluster_binding_key 500 m.cluster_role_bindings c)
      (abstract_step cluster_binding_key 500 (view cluster_binding_key m.cluster_role_bindings) c)
      (step-Simulates cluster_binding_key 500 m.cluster_role_bindings c s.cluster_bindings.0 keyed)
      (λ es. refl) s.cluster_bindings.1
      (λ es unique within. record {
        roles = s.roles;
        cluster_roles = s.cluster_roles;
        bindings = s.bindings;
        cluster_bindings = (unique, within);
      })
      s

pub call-refines :
    (m : Manager) (c : Call)
    → IsWellKeyed m
    → ((rights (call m c).0, (call m c).1) ≡ spec_step (rights m) (effect c))
      × IsWellKeyed (call m c).0
call-refines m c s = rw (call-effect m c) (step-refines m (effect c) (effect-HasKeyedCommand c) s)

init-IsWellKeyed : (now : ℕ) → IsWellKeyed (init now).0
unfolding init
init-IsWellKeyed now = record {
  roles = (tt, omega arith);
  cluster_roles = ((refl, tt), omega arith);
  bindings = (tt, omega arith);
  cluster_bindings = (tt, omega arith);
}

run_from_refines :
    (m : Manager) (cs : List Call)
    → IsWellKeyed m
    → ((rights (run m cs).0, (run m cs).1) ≡ spec_run (rights m) cs) × IsWellKeyed (run m cs).0
unfolding run spec_run
run_from_refines m [] s = (refl, s)
run_from_refines m (c ∷ cs) s =
    let first = call-refines m c s in
    let later = run_from_refines (call m c).0 cs first.1 in
    (
      ap (λ (x : Rights × List Status). (x.0, (call m c).1 ∷ x.1)) later.0
          ∙ ap (λ (x : Rights × Status). ((spec_run x.0 cs).0, x.1 ∷ (spec_run x.0 cs).1)) first.0,
      later.1,
    )

-- Whatever calls are made after the initialization, in whatever order, the four maps that the arrays
-- stand for and the codes that the calls return are those of the specification: an entry is created
-- under a new key while its map is below its limit, changed or deleted where its key has an entry, and
-- each other call returns an error and changes nothing.
pub run-refines :
    (now : ℕ) (cs : List Call)
    → (rights (run (init now).0 cs).0, (run (init now).0 cs).1) ≡ spec_run (rights (init now).0) cs
run-refines now cs = (run_from_refines (init now).0 cs (init-IsWellKeyed now)).0

-- Whatever calls are made after the initialization, no two roles of a namespace, no two cluster roles,
-- no two bindings of a namespace and no two cluster bindings have the same name, and there are at most
-- 1000, 200, 2000 and 500 of them.
pub run-IsWellKeyed : (now : ℕ) (cs : List Call) → IsWellKeyed (run (init now).0 cs).0
run-IsWellKeyed now cs = (run_from_refines (init now).0 cs (init-IsWellKeyed now)).1
