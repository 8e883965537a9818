-- ===== src/InstanceLifecycle/Registry.antt =====
-- The manager of internal/monitor/instance_lifecycle.c as a table of instances by name.
use sirah_c.Prelude.{
  ◌≡◌, refl, true, Option, none, some, List, [], ◌∷◌, ◌++◌, String, str_eq, eq_iff, arith,
  if◌then◌else◌, Bool-cases, inl, inr,
}
use sirah_c.InstanceLifecycle.{Instance}
use sirah_c.InstanceLifecycle.Manager.{LifecycleManager, add, remove, remove_from, get, find}

-- What a lookup gives after another one found nothing.
abbrev pub or_else {ℓ} : {A : Type ℓ} → Option A → Option A → Option A
or_else none o = o
or_else (some a) o = some a

find-append :
    (name : String) (is : List Instance) (i : Instance)
    → find name (is ++ i ∷ [])
      ≡ or_else (find name is) (if str_eq i.pod_name name then some i else none)
unfolding find
find-append name [] i = refl
find-append name (j ∷ is) i = elim (Bool-cases (str_eq j.pod_name name)) [
  | inl same ↦ rw same refl
  | inr other ↦ rw other (find-append name is i)
]

remove_from-append :
    (is : List Instance) (i : Instance)
    → find i.pod_name is ≡ none
    → remove_from i.pod_name (is ++ i ∷ []) ≡ (is, true)
unfolding find remove_from
remove_from-append [] i fresh = rw ((eq_iff i.pod_name i.pod_name).1 refl) refl
remove_from-append (j ∷ is) i fresh = elim (Bool-cases (str_eq j.pod_name i.pod_name)) [
  | inl same ↦ absurd (ground arith)
  | inr other ↦
      let later : find i.pod_name is ≡ none = ground arith in
      rw (other, remove_from-append is i later) refl
]

-- After an instance has been added, with its `realloc` made, a lookup finds what it found before, and
-- where it found nothing the new instance if the name is that of the new instance.
pub get-add :
    (m : LifecycleManager) (i : Instance) (name : String)
    → get (add m i true).0 name
      ≡ or_else (get m name) (if str_eq i.pod_name name then some i else none)
unfolding get add
get-add m i name = find-append name m.instances i

-- Removing an instance right after it has been added, under a name that nothing had before, leaves the
-- manager as it was.
pub remove-add :
    (m : LifecycleManager) (i : Instance)
    → get m i.pod_name ≡ none
    → remove (add m i true).0 i.pod_name ≡ (m, true)
unfolding get add remove
remove-add m i fresh = rw (remove_from-append m.instances i fresh) refl
