-- ===== src/Rbac/Covering.antt =====
-- When a rule covers a request: the tests of `rbac_can_perform_action` of
-- sirah/internal/rbac/rbac_manager.c on the lists of a rule.
use mathlib.Core.List.{Memᴰ}
use sirah_c.Prelude.{
  ◌≡◌, ◌↔◌, ◌⊎◌, inl, inr, refl, sym, subst, ◌∙◌, Bool, true, false, not, ◌||◌, Option, none, some,
  List, [], ◌∷◌, String, str_eq, eq_iff, if◌then◌else◌, arith, Bool-cases,
}
use sirah_c.Rbac.{Rule}
use sirah_c.Rbac.Policy.{
  Request, verb_matches, resource_matches, any, or_empty, name_matches, rule_matches,
}

module _ {ℓ} {A : Type ℓ} (p : A → Bool) where
  pub any-Memᴰ : (xs : List A) → any p xs ≡ true → (x : A) × Memᴰ x xs × (p x ≡ true)
  unfolding any
  any-Memᴰ [] h = absurd (ground arith)
  any-Memᴰ (x ∷ xs) h = elim (Bool-cases (p x)) [
    | inl hit ↦ (x, Memᴰ.head refl, hit)
    | inr miss ↦ let later = any-Memᴰ xs (ground arith) in (later.0, Memᴰ.tail later.1, later.2)
  ]

  pub Memᴰ-any : (xs : List A) (x : A) → Memᴰ x xs → p x ≡ true → any p xs ≡ true
  unfolding any
  Memᴰ-any [] x listed h = elim listed [ ]
  Memᴰ-any (y ∷ ys) x (Memᴰ.head e) h = rw (sym e, h) refl
  Memᴰ-any (y ∷ ys) x (Memᴰ.tail listed) h = elim (Bool-cases (p y)) [
    | inl hit ↦ rw hit refl
    | inr miss ↦ rw miss (Memᴰ-any ys x listed h)
  ]

-- A list of a rule that names a text or has the wildcard.
abbrev pub Lists : String → List String → Type 0
Lists t xs = Memᴰ "*" xs ⊎ Memᴰ t xs

pub Lists-iff :
    (p : String → Bool) (t : String) (xs : List String)
    → ((x : String) → p x ≡ (str_eq x "*" || str_eq x t))
    → (any p xs ≡ true) ↔ Lists t xs
Lists-iff p t xs test = (
  λ h.
      let found = any-Memᴰ p xs h in
      elim (Bool-cases (str_eq found.0 "*")) [
        | inl star ↦ inl (subst (λ x. Memᴰ x xs) ((eq_iff found.0 "*").0 star) found.1)
        | inr plain ↦
            let same : str_eq found.0 t ≡ true =
              subst (λ b. (b || str_eq found.0 t) ≡ true) plain (sym (test found.0) ∙ found.2) in
            inr (subst (λ x. Memᴰ x xs) ((eq_iff found.0 t).0 same) found.1)
      ],
  λ l. elim l [
    | inl star ↦ Memᴰ-any p xs "*" star (test "*" ∙ rw ((eq_iff "*" "*").1 refl) refl)
    | inr named ↦ Memᴰ-any p xs t named (
        test t
        ∙ rw ((eq_iff t t).1 refl)
            (elim (Bool-cases (str_eq t "*")) [ inl on ↦ rw on refl | inr off ↦ rw off refl ]))
  ],
)

test_either : (a b : Bool) → (if a then true else b) ≡ (a || b)
test_either true b = refl
test_either false b = refl

-- The rule covers the API group, the resource, the verb and the name of the object, where the request
-- has one and the rule is limited to names.
abbrev pub IsNamed : Option String → List String → Type 0
IsNamed none names = Unit
IsNamed (some name) names = (names ≡ []) ⊎ Lists name names

pub record Covers (q : Request) (r : Rule) : Type 0 where
  pub api_group : Lists (or_empty q.api_group) r.api_groups
  pub resource : Lists q.resource r.resources
  pub verb : Lists q.verb r.verbs
  pub name : IsNamed q.resource_name r.resource_names

name_matches_iff :
    (name : Option String) (names : List String)
    → (name_matches name names ≡ true) ↔ IsNamed name names
name_matches_iff none names = (λ h. tt, λ n. refl)
name_matches_iff (some name) [] = (λ h. inl refl, λ n. refl)
name_matches_iff (some name) (n ∷ ns) = (
  λ h. inr ((Lists-iff (λ x. str_eq x "*" || str_eq x name) name (n ∷ ns) (λ x. refl)).0 h),
  λ l. elim l [
    | inl empty ↦ absurd (ground arith)
    | inr listed ↦
        (Lists-iff (λ x. str_eq x "*" || str_eq x name) name (n ∷ ns) (λ x. refl)).1 listed
  ],
)

all_pass :
    (a b c d : Bool)
    → ((if not a then false else (if not b then false else (if not c then false else d))) ≡ true)
      ↔ ((a ≡ true) × (b ≡ true) × (c ≡ true) × (d ≡ true))
all_pass a b c d = ground arith

pub rule_matches_iff : (q : Request) (r : Rule) → (rule_matches q r ≡ true) ↔ Covers q r
unfolding rule_matches verb_matches resource_matches
rule_matches_iff q r =
    let groups =
      Lists-iff (λ x. str_eq x "*" || str_eq x (or_empty q.api_group)) (or_empty q.api_group)
        r.api_groups (λ x. refl) in
    let resources =
      Lists-iff (λ x. resource_matches x q.resource) q.resource r.resources
        (λ x. test_either (str_eq x "*") (str_eq x q.resource)) in
    let verbs =
      Lists-iff (λ x. verb_matches x q.verb) q.verb r.verbs
        (λ x. test_either (str_eq x "*") (str_eq x q.verb)) in
    let names = name_matches_iff q.resource_name r.resource_names in
    let all =
      all_pass (any (λ x. str_eq x "*" || str_eq x (or_empty q.api_group)) r.api_groups)
        (any (λ x. resource_matches x q.resource) r.resources)
        (any (λ x. verb_matches x q.verb) r.verbs)
        (name_matches q.resource_name r.resource_names) in
    (
      λ h.
          let each = all.0 h in
          record {
            api_group = groups.0 each.0;
            resource = resources.0 each.1;
            verb = verbs.0 each.2;
            name = names.0 each.3;
          },
      λ c. all.1 (groups.1 c.api_group, resources.1 c.resource, verbs.1 c.verb, names.1 c.name),
    )
