-- ===== src/LimitRange/Later.antt =====
-- The ranges of a namespace after its first one, in sirah/internal/limitrange/limitrange.c.
use sirah_c.Prelude.{
  ℕ, ◌<◌, ◌≡◌, refl, ap, inl, inr, Bool, true, false, Option, some, none, List, [], ◌∷◌, ◌++◌,
  String, length, filter, leb, is_some, if_elim, arith, Bool-cases,
}
use sirah_c.Table.{find, insert, pair_key}
use sirah_c.LimitRange.{
  ItemType, container, pod, pvc, Spec, LimitRange, Manager, is_in, range_key, new_range, if_valid,
  validate_spec, create, list_count,
}
use sirah_c.LimitRange.Limits.{
  find_item, validate_container, validate_pod, validate_storage, check_container, check_pod,
  check_storage,
}

find_item-append :
    (t : ItemType) (namespace : String) (rs : List LimitRange) (r : LimitRange)
    → 0 < length (filter (is_in namespace) rs)
    → find_item t namespace (rs ++ r ∷ []) ≡ find_item t namespace rs
unfolding find_item
find_item-append t namespace [] r h = absurd (omega arith)
find_item-append t namespace (x ∷ rs) r h = elim (Bool-cases (is_in namespace x)) [
  | inl hit ↦ rw hit refl
  | inr miss ↦ rw miss (find_item-append t namespace rs r (ground arith))
]

-- What is found in the table that a creation leaves is what was found before.
abbrev Unchanged : ItemType → String → List LimitRange → Option (List LimitRange) → Type 0
Unchanged t namespace old none = Unit
Unchanged t namespace old (some rs) = find_item t namespace rs ≡ find_item t namespace old

insert-Unchanged :
    (t : ItemType) (namespace : String) (rs : List LimitRange) (r : LimitRange)
    → 0 < length (filter (is_in namespace) rs)
    → Unchanged t namespace rs (insert range_key 100 r rs)
unfolding insert
insert-Unchanged t namespace rs r h =
    if_elim (Unchanged t namespace rs) (leb 100 (length rs)) (λ full. tt)
      (λ room.
        if_elim (Unchanged t namespace rs) (is_some (find range_key (range_key r) rs)) (λ there. tt)
          (λ fresh. find_item-append t namespace rs r h))

if_valid-Unchanged :
    (t : ItemType) (namespace : String) (b : Bool) (m : Manager) (o : Option (List LimitRange))
    → Unchanged t namespace m.limitranges o
    → find_item t namespace (if_valid b m o).0.limitranges ≡ find_item t namespace m.limitranges
if_valid-Unchanged t namespace b m none u = refl
if_valid-Unchanged t namespace true m (some rs) u = u
if_valid-Unchanged t namespace false m (some rs) u = refl

create-find_item :
    (m : Manager) (namespace name : String) (s : Spec) (now : ℕ) (t : ItemType)
    → 0 < list_count m namespace
    → find_item t namespace (create m namespace name s now).0.limitranges
      ≡ find_item t namespace m.limitranges
unfolding create list_count
create-find_item m namespace name s now t h =
    if_valid-Unchanged t namespace (validate_spec s) m
      (insert range_key 100 (new_range namespace name now s) m.limitranges)
      (insert-Unchanged t namespace m.limitranges (new_range namespace name now s) h)

-- In a namespace that has a limit range, the creation of another one, whatever it holds, changes no answer
-- of the checks of containers, of pods and of storage.
pub later_range_ignored :
    (m : Manager) (namespace name : String) (s : Spec) (now : ℕ)
    → 0 < list_count m namespace
    → ((cr cl mr ml : ℕ)
        → validate_container (create m namespace name s now).0 namespace cr cl mr ml
          ≡ validate_container m namespace cr cl mr ml)
      × ((cr cl mr ml n : ℕ)
          → validate_pod (create m namespace name s now).0 namespace cr cl mr ml n
            ≡ validate_pod m namespace cr cl mr ml n)
      × ((bytes : ℕ)
          → validate_storage (create m namespace name s now).0 namespace bytes
            ≡ validate_storage m namespace bytes)
unfolding validate_container validate_pod validate_storage
later_range_ignored m namespace name s now h = (
  λ cr cl mr ml.
      ap (λ o. check_container o cr cl mr ml) (create-find_item m namespace name s now container h),
  λ cr cl mr ml n. ap (λ o. check_pod o cr mr) (create-find_item m namespace name s now pod h),
  λ bytes. ap (λ o. check_storage o bytes) (create-find_item m namespace name s now pvc h),
)
