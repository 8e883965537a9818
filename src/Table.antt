-- ===== src/Table.antt =====
-- Arrays of records that are found by a key, as the managers under sirah/internal keep them: lookups run
-- from the front, a new entry goes to the back, and a removal moves the later entries up. Nothing here
-- models one file of the repository; the managers' operations are made of these.
pub mod Cases
pub mod Entries
pub mod Filters
pub mod Laws
pub mod Refinement
use sirah_c.Prelude.{
  ℕ, ◌≡◌, refl, ap, ◌↔◌, Bool, true, false, ◌&&◌, Option, none, some, List, [], ◌∷◌, ◌++◌, String,
  str_eq, eq_iff, leb, if◌then◌else◌, length, cons_to, arith, is_some,
}

pub record Key {ℓ} (K : Type ℓ) : Type ℓ where
  pub same : K → K → Bool
  pub same_iff : (a b : K) → (same a b ≡ true) ↔ (a ≡ b)

instance abbrev pub string_key : Key String
string_key = record { same = str_eq; same_iff = eq_iff }

abbrev pub same_pair : String × String → String × String → Bool
same_pair a b = str_eq a.1 b.1 && str_eq a.0 b.0

pub same_pair_iff : (a b : String × String) → (same_pair a b ≡ true) ↔ (a ≡ b)
same_pair_iff a b = (
  λ e.
      let names : a.1 ≡ b.1 = (eq_iff a.1 b.1).0 (ground arith) in
      let spaces : a.0 ≡ b.0 = (eq_iff a.0 b.0).0 (ground arith) in cc,
  λ e. rw (e, (eq_iff b.1 b.1).1 refl, (eq_iff b.0 b.0).1 refl) refl,
)

-- A namespace and a name.
instance abbrev pub pair_key : Key (String × String)
pair_key = record { same = same_pair; same_iff = same_pair_iff }

abbrev pub replaced {ℓ} : {A : Type ℓ} → List A → Option A → Option (List A)
replaced es none = none
replaced es (some e) = some (e ∷ es)

module _ {ℓ κ} {K : Type ℓ} {A : Type κ} ⦃k : Key K⦄ (key : A → K) where
  unfoldable pub find : K → List A → Option A
  find q [] = none
  find q (e ∷ es) = if k.same (key e) q then some e else find q es

  -- The first entry of the key is changed; `none` where there is none or the change is refused.
  unfoldable pub change : K → (A → Option A) → List A → Option (List A)
  change q f [] = none
  change q f (e ∷ es) =
      let rest = cons_to e (change q f es) in if k.same (key e) q then replaced es (f e) else rest

  -- The list without the first entry of the key; `none` where there is none.
  unfoldable pub drop : K → List A → Option (List A)
  drop q [] = none
  drop q (e ∷ es) = let rest = cons_to e (drop q es) in if k.same (key e) q then some es else rest

  -- A new entry, unless the array is full or has an entry of the key.
  unfoldable pub insert : ℕ → A → List A → Option (List A)
  unfolding find
  insert capacity e es =
      if leb capacity (length es)
      then none
      else (if is_some (find (key e) es) then none else some (es ++ e ∷ []))
