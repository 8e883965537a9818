-- ===== src/Table/Laws.antt =====
-- What lookups give after a change of a table (Table.antt) whose keys are all different.
use sirah_c.Prelude.{
  ◌≡◌, refl, ap, sym, subst, ◌∙◌, inl, inr, Bool, true, false, Option, none, some, List, [], ◌∷◌,
  ◌++◌, if◌then◌else◌, arith, is_some, Bool-cases, Option-cases,
}
use sirah_c.Table.{Key, find}

true-false : {b : Bool} → b ≡ true → b ≡ false → ⊥
true-false t f = cc

module _ {ℓ κ} {K : Type ℓ} {A : Type κ} ⦃k : Key K⦄ (key : A → K) where
  same_self : (q : K) → k.same q q ≡ true
  same_self q = (k.same_iff q q).1 refl

  other_way : (a b : K) → k.same a b ≡ false → k.same b a ≡ false
  other_way a b h = elim (Bool-cases (k.same b a)) [
    | inl hit ↦ absurd (true-false ((k.same_iff a b).1 (sym ((k.same_iff b a).0 hit))) h)
    | inr miss ↦ miss
  ]

  -- No two entries have the same key.
  abbrev pub IsUnique : List A → Type κ
  IsUnique [] = Unit
  IsUnique (e ∷ es) = (find key (key e) es ≡ none) × IsUnique es

  -- What a lookup finds has the key.
  pub find-key : (q : K) (es : List A) (e : A) → find key q es ≡ some e → key e ≡ q
  unfolding find
  find-key q [] e h = absurd (ground arith)
  find-key q (x ∷ es) e h = elim (Bool-cases (k.same (key x) q)) [
    | inl hit ↦
        let same_entry : x ≡ e = ground arith in
        ap key (sym same_entry) ∙ (k.same_iff (key x) q).0 hit
    | inr miss ↦ find-key q es e (ground arith)
  ]

  pub find-append :
      (q : K) (es : List A) (e : A)
      → find key q (es ++ e ∷ []) ≡ (
          if is_some (find key q es)
          then find key q es
          else (if k.same (key e) q then some e else none))
  unfolding find
  find-append q [] e = refl
  find-append q (x ∷ es) e = elim (Bool-cases (k.same (key x) q)) [
    | inl hit ↦ rw hit refl
    | inr miss ↦ rw miss (find-append q es e)
  ]

  append-IsUnique :
      (es : List A) (e : A) → IsUnique es → find key (key e) es ≡ none → IsUnique (es ++ e ∷ [])
  unfolding find
  append-IsUnique [] e u fresh = (refl, tt)
  append-IsUnique (x ∷ es) e u fresh = elim (Bool-cases (k.same (key x) (key e))) [
    | inl hit ↦ absurd (ground arith)
    | inr miss ↦ (
      find-append (key x) es e ∙ rw (u.0, other_way (key x) (key e) miss) refl,
      append-IsUnique es e u.1 (ground arith),
    )
  ]

  -- A table that differs from another one in what it gives for the key `q` alone.
  pub record Updated (q : K) (v : Option A) (es es' : List A) : Type (ℓ ⊔ κ) where
    pub unique : IsUnique es'
    pub found : (p : K) → find key p es' ≡ (if k.same p q then v else find key p es)

  pub cons-Updated :
      (q : K) (v : Option A) (e : A) (es es' : List A)
      → find key (key e) es ≡ none
      → k.same (key e) q ≡ false
      → Updated q v es es'
      → Updated q v (e ∷ es) (e ∷ es')
  unfolding find
  cons-Updated q v e es es' alone miss u = record {
    unique = (u.found (key e) ∙ rw (miss, alone) refl, u.unique);
    found = λ p. elim (Bool-cases (k.same (key e) p)) [
      | inl hit ↦
          let at_e : key e ≡ p = (k.same_iff (key e) p).0 hit in
          rw (hit, subst (λ r. k.same r q ≡ false) at_e miss) refl
      | inr other ↦ rw other (u.found p)
    ];
  }

  pub head-Updated :
      (q : K) (e e' : A) (es : List A)
      → IsUnique (e ∷ es)
      → k.same (key e) q ≡ true
      → key e' ≡ key e
      → Updated q (some e') (e ∷ es) (e' ∷ es)
  unfolding find
  head-Updated q e e' es u hit same = record {
    unique = (subst (λ r. find key r es ≡ none) (sym same) u.0, u.1);
    found = λ p. elim (Bool-cases (k.same p q)) [
      | inl at_q ↦
          let p_is : p ≡ q = (k.same_iff p q).0 at_q in
          rw
            (
              at_q,
              subst (λ r. k.same (key e') r ≡ true) (sym p_is)
                  (subst (λ r. k.same r q ≡ true) (sym same) hit),
            )
            refl
      | inr off ↦
          let e_is : key e ≡ q = (k.same_iff (key e) q).0 hit in
          let miss : k.same (key e) p ≡ false =
            other_way p (key e) (subst (λ r. k.same p r ≡ false) (sym e_is) off) in
          rw (off, miss, subst (λ r. k.same r p ≡ false) (sym same) miss) refl
    ];
  }

  pub tail-Updated :
      (q : K) (e : A) (es : List A)
      → IsUnique (e ∷ es)
      → k.same (key e) q ≡ true
      → Updated q none (e ∷ es) es
  unfolding find
  tail-Updated q e es u hit = record {
    unique = u.1;
    found = λ p. elim (Bool-cases (k.same p q)) [
      | inl at_q ↦
          let p_is : p ≡ key e = (k.same_iff p q).0 at_q ∙ sym ((k.same_iff (key e) q).0 hit) in
          rw at_q (subst (λ r. find key r es ≡ none) (sym p_is) u.0)
      | inr off ↦
          let e_is : key e ≡ q = (k.same_iff (key e) q).0 hit in
          rw (off, other_way p (key e) (subst (λ r. k.same p r ≡ false) (sym e_is) off)) refl
    ];
  }

  pub append-Updated :
      (e : A) (es : List A)
      → IsUnique es
      → find key (key e) es ≡ none
      → Updated (key e) (some e) es (es ++ e ∷ [])
  append-Updated e es u fresh = record {
    unique = append-IsUnique es e u fresh;
    found = λ p. find-append p es e ∙ elim (Bool-cases (k.same p (key e))) [
      | inl at_e ↦
          let p_is : p ≡ key e = (k.same_iff p (key e)).0 at_e in
          rw (p_is, fresh, same_self (key e)) refl
      | inr off ↦
          rw (off, other_way p (key e) off)
            (elim (Option-cases (find key p es)) [
              | inl none_at_p ↦ rw none_at_p refl
              | inr (x, at_p) ↦ rw at_p refl
            ])
    ];
  }
