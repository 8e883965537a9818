-- ===== src/Table/Filters.antt =====
-- The entries of a table (Table.antt) that pass a test.
use sirah_c.Prelude.{
  ◌≤◌, ◌≡◌, inl, inr, refl, ap, subst, ◌∙◌, Bool, Option, none, some, List, [], ◌∷◌, if◌then◌else◌,
  filter, length, arith, Bool-cases,
}
use sirah_c.Table.{Key, find}
use sirah_c.Table.Laws.{IsUnique}

-- What a lookup keeps of its answer.
abbrev pub keep_if {κ} : {A : Type κ} → (A → Bool) → Option A → Option A
keep_if p none = none
keep_if p (some e) = if p e then some e else none

pub length-filter {κ} : {A : Type κ} (p : A → Bool) (es : List A) → length (filter p es) ≤ length es
length-filter p [] = omega arith
length-filter p (e ∷ es) = elim (Bool-cases (p e)) [
  | inl kept ↦ rw kept (omega (arith, length-filter p es))
  | inr gone ↦ rw gone (omega (arith, length-filter p es))
]

module _ {ℓ κ} {K : Type ℓ} {A : Type κ} ⦃k : Key K⦄ (key : A → K) (p : A → Bool) where
  pub find-filter :
      (q : K) (es : List A) → IsUnique key es → find key q (filter p es) ≡ keep_if p (find key q es)
  unfolding find
  find-filter q [] u = refl
  find-filter q (e ∷ es) u = elim (Bool-cases (k.same (key e) q)) [
    | inl hit ↦ elim (Bool-cases (p e)) [
      | inl kept ↦ rw (kept, hit, kept) refl
      | inr gone ↦
          let nowhere : find key q es ≡ none =
            subst (λ r. find key r es ≡ none) ((k.same_iff (key e) q).0 hit) u.0 in
          rw (gone, hit, gone) (find-filter q es u.1 ∙ ap (keep_if p) nowhere)
    ]
    | inr miss ↦ elim (Bool-cases (p e)) [
      | inl kept ↦ rw (kept, miss) (find-filter q es u.1)
      | inr gone ↦ rw (gone, miss) (find-filter q es u.1)
    ]
  ]

  pub filter-IsUnique : (es : List A) → IsUnique key es → IsUnique key (filter p es)
  filter-IsUnique [] u = tt
  filter-IsUnique (e ∷ es) u = elim (Bool-cases (p e)) [
    | inl kept ↦ rw kept (find-filter (key e) es u.1 ∙ ap (keep_if p) u.0, filter-IsUnique es u.1)
    | inr gone ↦ rw gone (filter-IsUnique es u.1)
  ]
