-- ===== src/Table/Entries.antt =====
-- What holds of every entry of a table (Table.antt), over its operations.
use sirah_c.Prelude.{
  ℕ, ◌≡◌, inl, inr, refl, Option, none, some, List, [], ◌∷◌, ◌++◌, All, leb, length, is_some,
  cons_to, arith, Bool-cases, if_elim, sym,
}
use sirah_c.Table.{Key, find, change, drop, insert, replaced}

-- Of the table that a successful operation leaves.
abbrev pub AllOf {κ μ} : {A : Type κ} → (A → Type μ) → Option (List A) → Type μ
AllOf P none = Unit
AllOf P (some es) = All P es

module _ {ℓ κ μ} {K : Type ℓ} {A : Type κ} ⦃k : Key K⦄ (key : A → K) (P : A → Type μ) where
  append-All : (es : List A) (e : A) → All P es → P e → All P (es ++ e ∷ [])
  append-All [] e all holds = (holds, tt)
  append-All (x ∷ es) e all holds = (all.0, append-All es e all.1 holds)

  pub find-All : (q : K) (es : List A) (e : A) → All P es → find key q es ≡ some e → P e
  unfolding find
  find-All q [] e all h = absurd (ground arith)
  find-All q (x ∷ es) e all h = elim (Bool-cases (k.same (key x) q)) [
    | inl hit ↦ let same : x ≡ e = ground arith in rw (sym same) all.0
    | inr miss ↦ find-All q es e all.1 (ground arith)
  ]

  cons-All : (e : A) (o : Option (List A)) → P e → AllOf P o → AllOf P (cons_to e o)
  cons-All e none holds all = tt
  cons-All e (some es) holds all = (holds, all)

  replaced-All :
      (es : List A) (o : Option A)
      → All P es
      → ((e : A) → o ≡ some e → P e)
      → AllOf P (replaced es o)
  replaced-All es none all holds = tt
  replaced-All es (some e) all holds = (holds e refl, all)

  pub insert-All :
      (capacity : ℕ) (e : A) (es : List A) → All P es → P e → AllOf P (insert key capacity e es)
  unfolding insert
  insert-All capacity e es all holds =
      if_elim (AllOf P) (leb capacity (length es)) (λ full. tt)
        (λ room.
          if_elim (AllOf P) (is_some (find key (key e) es)) (λ there. tt)
            (λ fresh. append-All es e all holds))

  pub drop-All : (q : K) (es : List A) → All P es → AllOf P (drop key q es)
  unfolding drop
  drop-All q [] all = tt
  drop-All q (e ∷ es) all =
      if_elim (AllOf P) (k.same (key e) q) (λ hit. all.1)
        (λ miss. cons-All e (drop key q es) all.0 (drop-All q es all.1))

  pub change-All :
      (q : K) (f : A → Option A) (es : List A)
      → ((e e' : A) → P e → f e ≡ some e' → P e')
      → All P es
      → AllOf P (change key q f es)
  unfolding change
  change-All q f [] kept all = tt
  change-All q f (e ∷ es) kept all =
      if_elim (AllOf P) (k.same (key e) q)
        (λ hit. replaced-All es (f e) all.1 (λ e' made. kept e e' all.0 made))
        (λ miss. cons-All e (change key q f es) all.0 (change-All q f es kept all.1))
