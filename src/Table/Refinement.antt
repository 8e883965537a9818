-- ===== src/Table/Refinement.antt =====
-- A table (Table.antt) against what it stands for: a function from keys to entries, and how many entries
-- there are. The order of the array is forgotten.
use mathlib.Core.Path.{fun_ext, ap₂}
use sirah_c.Prelude.{
  ℕ, ◌⊎◌, ◌+◌, ◌-◌, ◌≤◌, ◌≡◌, refl, sym, ap, inl, inr, Option, none, some, List, [], ◌∷◌, ◌++◌, leb,
  if◌then◌else◌, length, length-append, arith, is_some,
}
use sirah_c.Table.{Key, find, change, drop, insert}
use sirah_c.Table.Laws.{IsUnique, Updated}
use sirah_c.Table.Cases.{KeepsKey, drop-cases, change-cases, insert-cases}

pub record Finite {ℓ κ} (K : Type ℓ) (A : Type κ) : Type (ℓ ⊔ κ) where
  pub at : K → Option A
  pub size : ℕ

-- One operation: an entry is created, the entry of a key is changed or refused, or it is deleted.
pub data Command {ℓ κ} (K : Type ℓ) (A : Type κ) : Type (ℓ ⊔ κ) where
  creates : A → Command K A
  changes : K → (A → Option A) → Command K A
  deletes : K → Command K A

module _ {ℓ κ} {K : Type ℓ} {A : Type κ} ⦃k : Key K⦄ where
  -- The function that differs from another one at the key `q` alone.
  abbrev pub set_at : (K → Option A) → K → Option A → K → Option A
  set_at f q v p = if k.same p q then v else f p

module _ {ℓ κ} {K : Type ℓ} {A : Type κ} ⦃k : Key K⦄ (key : A → K) where
  abbrev pub view : List A → Finite K A
  view es = record { at = λ q. find key q es; size = length es }

  -- Commands whose changes keep the keys.
  abbrev pub IsKeyed : Command K A → Type (ℓ ⊔ κ)
  IsKeyed (creates e) = Unit
  IsKeyed (changes q f) = KeepsKey key q f
  IsKeyed (deletes q) = Unit

  view-Updated :
      (q : K) (v : Option A) (es es' : List A) (n : ℕ)
      → length es' ≡ n
      → Updated key q v es es'
      → view es' ≡ record { at = set_at (λ p. find key p es) q v; size = n }
  view-Updated q v es es' n count u =
      ap₂ (λ (f : K → Option A) (i : ℕ). record { at = f; size = i }) (fun_ext u.found) count

module _ {ℓ κ} {K : Type ℓ} {A : Type κ} ⦃k : Key K⦄ (key : A → K) (capacity : ℕ) where
  -- What an operation does to the function: the new function, or `none` where it is refused.
  abbrev pub change_at : Finite K A → K → Option A → Option (Finite K A)
  change_at m q none = none
  change_at m q (some e) = some (record m { at = set_at m.at q (some e) })

  abbrev pub bind_change : Finite K A → K → (A → Option A) → Option A → Option (Finite K A)
  bind_change m q f none = none
  bind_change m q f (some e) = change_at m q (f e)

  abbrev pub abstract_step : Finite K A → Command K A → Option (Finite K A)
  abstract_step m (creates e) =
      if leb capacity m.size
      then none
      else (if is_some (m.at (key e))
          then none
          else some (record { at = set_at m.at (key e) (some e); size = m.size + 1 }))
  abstract_step m (changes q f) = bind_change m q f (m.at q)
  abstract_step m (deletes q) =
      if is_some (m.at q)
      then some (record { at = set_at m.at q none; size = m.size - 1 })
      else none

  abbrev pub table_step : List A → Command K A → Option (List A)
  table_step es (creates e) = insert key capacity e es
  table_step es (changes q f) = change key q f es
  table_step es (deletes q) = drop key q es

  -- Both steps are refused, or both are made and agree again, with different keys and within the
  -- capacity.
  abbrev pub Simulates : List A → Option (List A) → Option (Finite K A) → Type (ℓ ⊔ κ)
  Simulates es o o' =
      ((o ≡ none) × (o' ≡ none))
      ⊎ ((es' : List A) × (o ≡ some es')
          × (o' ≡ some (view key es'))
          × IsUnique key es'
          × (length es ≤ capacity → length es' ≤ capacity))

  pub step-Simulates :
      (es : List A) (c : Command K A)
      → IsUnique key es
      → IsKeyed key c
      → Simulates es (table_step es c) (abstract_step (view key es) c)
  step-Simulates es (creates e) u keeps = elim (insert-cases key capacity e es u) [
    | inl (full, refused) ↦ inl (refused, rw full refl)
    | inr (room, inl (x, there, refused)) ↦ inl (refused, rw (room, there) refl)
    | inr (room, inr (fresh, done, new)) ↦ inr (
      es ++ e ∷ [],
      done,
      rw (room, fresh)
          (ap some (
            sym (
              view-Updated key (key e) (some e) es (es ++ e ∷ []) (length es + 1)
                (omega (arith, length-append es (e ∷ []))) new))),
      new.unique,
      λ within. ground (arith, length-append es (e ∷ [])),
    )
  ]
  step-Simulates es (changes q f) u keeps = elim (change-cases key q f es keeps u) [
    | inl (nowhere, kept) ↦ inl (kept, rw nowhere refl)
    | inr (x, there, inl (refused, kept)) ↦ inl (kept, rw (there, refused) refl)
    | inr (x, there, inr (x', es', made, done, count, new)) ↦ inr (
      es',
      done,
      rw (there, made)
          (ap some (sym (view-Updated key q (some x') es es' (length es) (sym count) new))),
      new.unique,
      λ within. omega arith,
    )
  ]
  step-Simulates es (deletes q) u keeps = elim (drop-cases key q es u) [
    | inl (nowhere, kept) ↦ inl (kept, rw nowhere refl)
    | inr (x, es', there, gone, count, new) ↦ inr (
      es',
      gone,
      rw there (ap some (sym (view-Updated key q none es es' (length es - 1) (omega arith) new))),
      new.unique,
      λ within. omega arith,
    )
  ]
