-- ===== src/Table/Cases.antt =====
-- The outcomes of the operations on a table (Table.antt).
use sirah_c.Prelude.{
  ℕ, suc, ◌≡◌, refl, ◌⊎◌, inl, inr, true, false, Option, none, some, List, [], ◌∷◌, ◌++◌, leb,
  length, arith, Bool-cases, Option-cases,
}
use sirah_c.Table.{Key, find, change, drop, insert}
use sirah_c.Table.Laws.{IsUnique, Updated, cons-Updated, head-Updated, tail-Updated, append-Updated}

module _ {ℓ κ} {K : Type ℓ} {A : Type κ} ⦃k : Key K⦄ (key : A → K) where
  pub drop-cases :
      (q : K) (es : List A)
      → IsUnique key es
      → ((find key q es ≡ none) × (drop key q es ≡ none))
        ⊎ ((e : A) × (es' : List A) × (find key q es ≡ some e)
            × (drop key q es ≡ some es')
            × (length es ≡ suc (length es'))
            × Updated key q none es es')
  unfolding find drop
  drop-cases q [] u = inl (refl, refl)
  drop-cases q (e ∷ es) u = elim (Bool-cases (k.same (key e) q)) [
    | inl hit ↦ inr (e, es, rw hit refl, rw hit refl, refl, tail-Updated key q e es u hit)
    | inr miss ↦ elim (drop-cases q es u.1) [
      | inl (nowhere, kept) ↦ inl (rw (miss, nowhere) refl, rw (miss, kept) refl)
      | inr (x, es', there, gone, count, new) ↦ inr (
        x,
        e ∷ es',
        rw (miss, there) refl,
        rw (miss, gone) refl,
        omega (arith, count),
        cons-Updated key q none e es es' u.0 miss new,
      )
    ]
  ]

  -- The change that an operation on a table may make keeps the key of the entry.
  abbrev pub KeepsKey : K → (A → Option A) → Type (ℓ ⊔ κ)
  KeepsKey q f = (e e' : A) → key e ≡ q → f e ≡ some e' → key e' ≡ key e

  pub change-cases :
      (q : K) (f : A → Option A) (es : List A)
      → KeepsKey q f
      → IsUnique key es
      → ((find key q es ≡ none) × (change key q f es ≡ none))
        ⊎ ((e : A) × (find key q es ≡ some e)
            × (((f e ≡ none) × (change key q f es ≡ none))
                ⊎ ((e' : A) × (es' : List A) × (f e ≡ some e')
                    × (change key q f es ≡ some es')
                    × (length es ≡ length es')
                    × Updated key q (some e') es es')))
  unfolding find change
  change-cases q f [] keeps u = inl (refl, refl)
  change-cases q f (e ∷ es) keeps u = elim (Bool-cases (k.same (key e) q)) [
    | inl hit ↦ inr (
      e,
      rw hit refl,
      elim (Option-cases (f e)) [
        | inl refused ↦ inl (refused, rw (hit, refused) refl)
        | inr (e', made) ↦ inr (
          e',
          e' ∷ es,
          made,
          rw (hit, made) refl,
          refl,
          head-Updated key q e e' es u hit (keeps e e' ((k.same_iff (key e) q).0 hit) made),
        )
      ],
    )
    | inr miss ↦ elim (change-cases q f es keeps u.1) [
      | inl (nowhere, kept) ↦ inl (rw (miss, nowhere) refl, rw (miss, kept) refl)
      | inr (x, there, inl (refused, kept)) ↦
          inr (x, rw (miss, there) refl, inl (refused, rw (miss, kept) refl))
      | inr (x, there, inr (x', es', made, done, count, new)) ↦ inr (
        x,
        rw (miss, there) refl,
        inr (
          x',
          e ∷ es',
          made,
          rw (miss, done) refl,
          omega (arith, count),
          cons-Updated key q (some x') e es es' u.0 miss new,
        ),
      )
    ]
  ]

  -- An insertion is refused, or adds an entry of a new key at the back.
  pub insert-cases :
      (capacity : ℕ) (e : A) (es : List A)
      → IsUnique key es
      → ((leb capacity (length es) ≡ true) × (insert key capacity e es ≡ none))
        ⊎ ((leb capacity (length es) ≡ false)
            × (((x : A) × (find key (key e) es ≡ some x) × (insert key capacity e es ≡ none))
                ⊎ ((find key (key e) es ≡ none)
                    × (insert key capacity e es ≡ some (es ++ e ∷ []))
                    × Updated key (key e) (some e) es (es ++ e ∷ []))))
  unfolding insert
  insert-cases capacity e es u = elim (Bool-cases (leb capacity (length es))) [
    | inl full ↦ inl (full, rw full refl)
    | inr room ↦ inr (
      room,
      elim (Option-cases (find key (key e) es)) [
        | inr (x, there) ↦ inl (x, there, rw (room, there) refl)
        | inl fresh ↦ inr (fresh, rw (room, fresh) refl, append-Updated key e es u fresh)
      ],
    )
  ]
