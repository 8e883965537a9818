-- ===== src/RequestCache/Lookup.antt =====
-- What sirah/internal/cache/request_cache.c answers for a key that was put.
use sirah_c.Prelude.{
  ℕ, ◌-◌, ◌≤◌, ◌<◌, ◌≡◌, ◌≢◌, refl, sym, subst, if_elim, ◌∙◌, Bool, true, false, not, Option, none,
  some, ◌>>=◌, List, [], ◌∷◌, ◌++◌, String, str_eq, eq_iff, ltb, arith, Bool-cases, inl, inr,
}
use sirah_c.RequestCache.{
  Entry, Cache, Status, ok, entry_size, new_entry, is_expired, least_hits, take_at, evict, is_full,
  test_size, append, put, look_up, get, take_key,
}

-- The value that a lookup answers depends on the first entry of the key.
look_up-append :
    (ttl_seconds : ℕ) (key : String) (now : ℕ) (es : List Entry) (e : Entry)
    → take_key key es ≡ none
    → str_eq e.key key ≡ true
    → is_expired e ttl_seconds now ≡ false
    → (look_up ttl_seconds key now (es ++ e ∷ [])).2 ≡ some e.value
unfolding look_up take_key
look_up-append ttl_seconds key now [] e fresh same young = rw (same, young) refl
look_up-append ttl_seconds key now (x ∷ es) e fresh same young =
    elim (Bool-cases (str_eq x.key key)) [
      | inl hit ↦ absurd (ground arith)
      | inr other ↦ rw other (look_up-append ttl_seconds key now es e (ground arith) same young)
    ]

-- An entry further back does not change what a lookup answers.
look_up_first :
    (ttl_seconds : ℕ) (key : String) (now : ℕ) (es : List Entry) (e : Entry)
    → take_key key es ≢ none
    → (look_up ttl_seconds key now (es ++ e ∷ [])).2 ≡ (look_up ttl_seconds key now es).2
unfolding look_up take_key
look_up_first ttl_seconds key now [] e known = absurd (known refl)
look_up_first ttl_seconds key now (x ∷ es) e known = elim (Bool-cases (str_eq x.key key)) [
  | inl hit ↦ elim (Bool-cases (ltb ttl_seconds (now - x.created_at))) [
    | inl old ↦ rw (hit, old) refl
    | inr young ↦ rw (hit, young) refl
  ]
  | inr other ↦
      rw other
        (look_up_first ttl_seconds key now es e (λ nowhere. known (rw (other, nowhere) refl)))
]

get_enabled :
    (c : Cache) (key : String) (now : ℕ)
    → c.enabled ≡ true
    → (get c key now).1 ≡ (look_up c.ttl_seconds key now c.entries).2
unfolding get
get_enabled c key now on = rw on refl

-- A put with room, in an enabled cache and with all allocations made.
put_room :
    (c : Cache) (key value : String) (now : ℕ)
    → c.enabled ≡ true
    → is_full c (entry_size key value) ≡ false
    → put c key value now true true ≡ some (append c (new_entry c key value now) true)
unfolding put new_entry
put_room c key value now on room =
    let stored = some (append c (new_entry c key value now) true) in
    if_elim (λ (o : Option (Cache × Status)). o ≡ stored) (not c.enabled)
      (λ off. absurd (ground arith))
      (λ open'.
        if_elim (λ (o : Option (Cache × Status)). o ≡ stored) (is_full c (entry_size key value))
          (λ full. absurd (cc)) (λ room'. refl))

-- In an enabled cache with room for the entry, and with all allocations made, the value that is put
-- under a new key is what the key gives, for as long as the time to live.
pub get-put :
    (c : Cache) (key value : String) (now later : ℕ)
    → c.enabled ≡ true
    → is_full c (entry_size key value) ≡ false
    → take_key key c.entries ≡ none
    → later - now ≤ c.ttl_seconds
    → (c' : Cache) × (put c key value now true true ≡ some (c', ok))
      × ((get c' key later).1 ≡ some value)
unfolding new_entry is_expired
get-put c key value now later on room fresh soon =
    let e = new_entry c key value now in
    let c' = (append c e true).0 in
    (
      c',
      put_room c key value now on room,
      get_enabled c' key later on
          ∙ look_up-append c.ttl_seconds key later c.entries e fresh ((eq_iff key key).1 refl)
              (ground arith),
    )

-- But a value that is put under a key that has an entry already does not come to light: the key gives
-- what it gave before the put.
pub get-put_stale :
    (c : Cache) (key value : String) (now later : ℕ)
    → c.enabled ≡ true
    → is_full c (entry_size key value) ≡ false
    → take_key key c.entries ≢ none
    → (c' : Cache) × (put c key value now true true ≡ some (c', ok))
      × ((get c' key later).1 ≡ (get c key later).1)
get-put_stale c key value now later on room known =
    let e = new_entry c key value now in
    let c' = (append c e true).0 in
    (
      c',
      put_room c key value now on room,
      get_enabled c' key later on
          ∙ look_up_first c.ttl_seconds key later c.entries e known
          ∙ sym (get_enabled c key later on),
    )

evict_empty : (c : Cache) → c.entries ≡ [] → evict c ≡ none
unfolding evict take_at
evict_empty c empty =
    let nothing : take_at (least_hits 0 c.entries 2147483647 0) c.entries ≡ none =
      subst (λ es. take_at (least_hits 0 es 2147483647 0) es ≡ none) (sym empty) refl in
    rw nothing refl

abbrev nothing : ℕ → Option (Cache × Status)
nothing total = none

nothing_after : (o : Option ℕ) → (o >>= nothing) ≡ none
nothing_after none = refl
nothing_after (some total) = refl

-- A put of an entry larger than the whole cache into an empty one takes away an entry that is not there.
pub oversize_put_faults :
    (c : Cache) (key value : String) (now : ℕ) (reallocated : Bool)
    → c.enabled ≡ true
    → c.entries ≡ []
    → c.max_size_bytes < entry_size key value
    → put c key value now true reallocated ≡ none
unfolding put new_entry
oversize_put_faults c key value now reallocated on empty large =
    if_elim (λ (o : Option (Cache × Status)). o ≡ none) (not c.enabled)
      (λ off. absurd (ground arith))
      (λ open'.
        if_elim (λ (o : Option (Cache × Status)). o ≡ none) (is_full c (entry_size key value))
          (λ full. rw (evict_empty c empty) (nothing_after (test_size c (entry_size key value))))
          (λ room. absurd (unfold entry_size in ground arith)))
