-- ===== src/StatefulSet/Pods.antt =====
-- sirah/internal/statefulset/statefulset.c: the pods of a stateful set by their ordinals.
use Prim.Native.String.{◌++◌ as str_append}
use sirah_c.Prelude.{
  ℕ, ◌+◌, ◌/◌, ◌%◌, Bool, false, ◌&&◌, Option, none, some, [], ◌∷◌, String, ltb, leb, ◌==◌,
  if◌then◌else◌, get_elem?, map,
}
use sirah_c.Table.{change, string_key, pair_key}
use sirah_c.StatefulSet.{
  Status, error, OrdinalState, pending, PodOrdinal, Template, SetStatus, StatefulSet, Manager,
  set_key, put_sets, get,
}

abbrev pub or_blank : Option String → String
or_blank none = ""
or_blank (some text) = text

abbrev pub digit : ℕ → String
digit d = or_blank (get_elem? ("0" ∷ "1" ∷ "2" ∷ "3" ∷ "4" ∷ "5" ∷ "6" ∷ "7" ∷ "8" ∷ "9" ∷ []) d)

-- `%d` of a number below 1000.
abbrev pub decimal : ℕ → String
decimal n =
    if ltb n 10
    then digit n
    else (if ltb n 100
        then str_append (digit (n / 10)) (digit (n % 10))
        else str_append (digit (n / 100)) (str_append (digit (n / 10 % 10)) (digit (n % 10))))

unfoldable pub get_pod_name : String → ℕ → Option String
get_pod_name statefulset_name ordinal =
    if leb 1000 ordinal
    then none
    else some (str_append statefulset_name (str_append "-" (decimal ordinal)))

-- A change of the set of a name, or an error, also where the change is refused.
unfoldable pub on_set :
    Manager → String → String → (StatefulSet → Option StatefulSet) → Manager × Status
unfolding change
on_set m namespace name f = put_sets m (change set_key (namespace, name) f m.statefulsets)

abbrev pub on_status : (SetStatus → SetStatus) → StatefulSet → StatefulSet
on_status f s = record s { status = f s.status }

abbrev pub new_ordinal : String → ℕ → PodOrdinal
new_ordinal statefulset_name i = record {
  ordinal = i;
  pod_name = or_blank (get_pod_name statefulset_name i);
  state = pending;
  ready = false;
  pvc_names = [];
}

abbrev pub at : (ℕ → PodOrdinal) → ℕ → (PodOrdinal → PodOrdinal) → ℕ → PodOrdinal
at pods i f j = if j == i then f (pods j) else pods j

-- The array with new entries up to an index, where it does not reach that far.
abbrev pub extended : String → ℕ → SetStatus → SetStatus
extended statefulset_name i s =
    if leb s.ordinals i
    then record s {
      pod_ordinals = λ j.
          if leb s.ordinals j && leb j i then new_ordinal statefulset_name j else s.pod_ordinals j;
      ordinals = i + 1;
    }
    else s

abbrev pub with_state : String → ℕ → OrdinalState → SetStatus → SetStatus
with_state statefulset_name i state s =
    let s' = extended statefulset_name i s in
    record s' { pod_ordinals = at s'.pod_ordinals i (λ p. record p { state = state }) }

unfoldable pub set_ordinal_state : Manager → String → String → ℕ → OrdinalState → Manager × Status
unfolding on_set get_pod_name
set_ordinal_state m namespace name i state =
    if leb 1000 i
    then (m, error)
    else on_set m namespace name (λ s. some (on_status (with_state name i state) s))

abbrev pub ask {ℓ} : {A : Type ℓ} → A → (StatefulSet → A) → Option StatefulSet → A
ask otherwise f none = otherwise
ask otherwise f (some s) = f s

unfoldable pub get_ordinal_state : Manager → String → String → ℕ → Option PodOrdinal
unfolding get
get_ordinal_state m namespace name i =
    if leb 1000 i
    then none
    else ask none (λ s. if leb s.status.ordinals i then none else some (s.status.pod_ordinals i))
        (get m namespace name)

abbrev pub with_ready : ℕ → Bool → SetStatus → SetStatus
with_ready i is_ready s = record s {
  pod_ordinals = at s.pod_ordinals i (λ p. record p { ready = is_ready });
  ready_ordinals =
      if is_ready && (i == s.ready_ordinals) then s.ready_ordinals + 1 else s.ready_ordinals;
}

unfoldable pub set_ordinal_ready : Manager → String → String → ℕ → Bool → Manager × Status
unfolding on_set
set_ordinal_ready m namespace name i is_ready =
    on_set m namespace name
      (λ s. if leb s.status.ordinals i then none else some (on_status (with_ready i is_ready) s))

unfoldable pub is_ordinal_ready : Manager → String → String → ℕ → Bool
unfolding get
is_ordinal_ready m namespace name i =
    ask false (λ s. if leb s.status.ordinals i then false else (s.status.pod_ordinals i).ready)
      (get m namespace name)

abbrev pub pvc_name : String → ℕ → Template → String
pvc_name name i t = str_append t.name (
    str_append "-"
      (str_append name (str_append "-" (str_append name (str_append "-" (decimal i))))))

abbrev pub with_pvcs : String → ℕ → StatefulSet → StatefulSet
with_pvcs name i s =
    on_status
      (λ st. record st {
        pod_ordinals =
            at st.pod_ordinals i
              (λ p. record p { pvc_names = map (pvc_name name i) s.spec.volume_templates });
      })
      s

-- A write to the entry of an ordinal, which nothing compares with the size of the array: `none` is a
-- write behind its end.
abbrev pub write_ordinal :
    Manager
    → String
    → String
    → ℕ
    → (StatefulSet → StatefulSet)
    → Option StatefulSet
    → Option (Manager × Status)
unfolding on_set
write_ordinal m namespace name i f none = some (m, error)
write_ordinal m namespace name i f (some s) =
    if leb 1000 i then none else some (on_set m namespace name (λ s'. some (f s')))

unfoldable pub create_pvcs_for_ordinal : Manager → String → String → ℕ → Option (Manager × Status)
unfolding get write_ordinal
create_pvcs_for_ordinal m namespace name i =
    write_ordinal m namespace name i (with_pvcs name i) (get m namespace name)

abbrev pub without_pvcs : ℕ → SetStatus → SetStatus
without_pvcs i st = record st {
  pod_ordinals = at st.pod_ordinals i (λ p. record p { pvc_names = [] });
}

unfoldable pub delete_pvcs_for_ordinal : Manager → String → String → ℕ → Option (Manager × Status)
unfolding get write_ordinal
delete_pvcs_for_ordinal m namespace name i =
    write_ordinal m namespace name i (on_status (without_pvcs i)) (get m namespace name)
