-- ===== src/RequestCache/Accounting.antt =====
-- The sizes and the number of entries in sirah/internal/cache/request_cache.c.
use native.Mathlib.Nat.{mul-le-mul_right}
use sirah_c.Prelude.{
  ℕ, suc, ◌+◌, ◌-◌, ◌*◌, All, ◌≤◌, ◌<◌, ◌≡◌, refl, ◌⊎◌, Bool, true, false, Option, none, some, List,
  [], ◌∷◌, ◌++◌, String, str_eq, ltb, leb, ◌==◌, length, length-append, arith, Bool-cases, inl, inr,
  if_elim, not, ◌||◌, subst,
}
use sirah_c.RequestCache.{
  Entry, Cache, Status, entry_size, new_entry, least_hits, take_at, evict, is_full, append,
  add_size, test_size, append_evicted, put, look_up, get, take_key, remove, clear,
}

unfoldable pub total_size : List Entry → ℕ
total_size [] = 0
total_size (e ∷ es) = e.size + total_size es

-- Entries that each fit an empty cache of the size.
abbrev pub IsSmall : ℕ → List Entry → Type 0
IsSmall max_size_bytes = All (λ e. e.size ≤ max_size_bytes)

-- The size on record is that of the entries, there are no more of them than allowed, each of them fits, and
-- an `int` holds the sizes of one more.
pub record IsAccounted (c : Cache) : Type 0 where
  pub sized : c.current_size_bytes ≡ total_size c.entries
  pub few : length c.entries ≤ c.max_entries
  pub positive : 0 < c.max_entries
  pub small : IsSmall c.max_size_bytes c.entries
  pub held : suc c.max_entries * c.max_size_bytes ≤ 2147483647

total_size_bound :
    (max_size_bytes : ℕ) (es : List Entry)
    → IsSmall max_size_bytes es
    → total_size es ≤ length es * max_size_bytes
unfolding total_size
total_size_bound max_size_bytes [] small = omega arith
total_size_bound max_size_bytes (e ∷ es) small =
    grind (arith, total_size_bound max_size_bytes es small.1, small.0)

-- The sum that a put makes of the size on record and that of an entry that fits.
pub sum_held :
    (c : Cache) (size : ℕ)
    → IsAccounted c
    → size ≤ c.max_size_bytes
    → c.current_size_bytes + size ≤ 2147483647
sum_held c size h fits =
    let total = total_size_bound c.max_size_bytes c.entries h.small in
    let most : length c.entries * c.max_size_bytes ≤ c.max_entries * c.max_size_bytes =
      mul-le-mul_right c.max_size_bytes h.few in
    grind (arith, h.sized, h.held)

total_size-append :
    (es : List Entry) (e : Entry) → total_size (es ++ e ∷ []) ≡ total_size es + e.size
unfolding total_size
total_size-append [] e = omega arith
total_size-append (x ∷ es) e = omega (arith, total_size-append es e)

least_hits-lt :
    (i : ℕ) (es : List Entry) (min_hits min_idx n : ℕ)
    → i + length es ≤ n
    → min_idx < n
    → least_hits i es min_hits min_idx < n
unfolding least_hits
least_hits-lt i [] min_hits min_idx n h k = k
least_hits-lt i (e ∷ es) min_hits min_idx n h k = ground (
  arith,
  least_hits-lt (i + 1) es e.hits i n (omega arith) (omega arith),
  least_hits-lt (i + 1) es min_hits min_idx n (omega arith) k,
)

-- An entry that is taken, and the entries that stay.
abbrev Taken : List Entry → Entry → List Entry → Type 0
Taken es gone rest =
    (total_size es ≡ gone.size + total_size rest)
    × (length es ≡ suc (length rest))
    × ((n : ℕ) → IsSmall n es → IsSmall n rest)

take_at-some :
    (i : ℕ) (es : List Entry)
    → i < length es
    → (gone : Entry) × (rest : List Entry) × (take_at i es ≡ some (gone, rest)) × Taken es gone rest
unfolding take_at total_size
take_at-some i [] h = absurd (omega (arith, h))
take_at-some i (e ∷ es) h = elim (Bool-cases (i == 0)) [
  | inl first ↦ (e, es, rw first refl, (refl, refl, λ n s. s.1))
  | inr later ↦
      let (gone, rest, there, (sizes, counts, fits)) = take_at-some (i - 1) es (ground arith) in
      (gone, e ∷ rest, rw (later, there) refl, (omega arith, omega arith, λ n s. (s.0, fits n s.1)))
]

take_key-cases :
    (key : String) (es : List Entry)
    → (take_key key es ≡ none)
      ⊎ ((gone : Entry) × (rest : List Entry) × (take_key key es ≡ some (gone, rest))
          × Taken es gone rest)
unfolding take_key total_size
take_key-cases key [] = inl refl
take_key-cases key (e ∷ es) = elim (Bool-cases (str_eq e.key key)) [
  | inl same ↦ inr (e, es, rw same refl, (refl, refl, λ n s. s.1))
  | inr other ↦ elim (take_key-cases key es) [
    | inl nowhere ↦ inl (rw (other, nowhere) refl)
    | inr (gone, rest, there, (sizes, counts, fits)) ↦ inr (
      gone,
      e ∷ rest,
      rw (other, there) refl,
      (omega arith, omega arith, λ n s. (s.0, fits n s.1)),
    )
  ]
]

-- What a lookup leaves.
look_up_total :
    (ttl_seconds : ℕ) (key : String) (now : ℕ) (es : List Entry)
    → let (es', lost, value) = look_up ttl_seconds key now es in
      (total_size es ≡ lost + total_size es') × (length es' ≤ length es)
unfolding look_up total_size
look_up_total ttl_seconds key now [] = (refl, omega arith)
look_up_total ttl_seconds key now (e ∷ es) = ground (arith, look_up_total ttl_seconds key now es)

look_up-IsSmall :
    (ttl_seconds : ℕ) (key : String) (now n : ℕ) (es : List Entry)
    → IsSmall n es
    → IsSmall n (look_up ttl_seconds key now es).0
unfolding look_up
look_up-IsSmall ttl_seconds key now n [] s = tt
look_up-IsSmall ttl_seconds key now n (e ∷ es) s =
    let P : List Entry × ℕ × Option String → Type 0 = λ r. IsSmall n r.0 in
    if_elim P (not (str_eq e.key key))
      (λ other. (s.0, look_up-IsSmall ttl_seconds key now n es s.1))
      (λ same. if_elim P (ltb ttl_seconds (now - e.created_at)) (λ old. s.1) (λ young. s))

append-IsSmall :
    (n : ℕ) (es : List Entry) (e : Entry) → IsSmall n es → e.size ≤ n → IsSmall n (es ++ e ∷ [])
append-IsSmall n [] e s fits = (fits, tt)
append-IsSmall n (x ∷ es) e s fits = (s.0, append-IsSmall n es e s.1 fits)

evict-IsAccounted :
    (c : Cache)
    → IsAccounted c
    → 0 < length c.entries
    → (c' : Cache) × (evict c ≡ some c')
      × IsAccounted c'
      × (length c'.entries < c.max_entries)
      × (c'.max_entries ≡ c.max_entries)
      × (c'.max_size_bytes ≡ c.max_size_bytes)
      × (c'.current_size_bytes ≤ c.current_size_bytes)
unfolding evict
evict-IsAccounted c h some_entry =
    let (gone, rest, there, (sizes, counts, fits)) =
      take_at-some (least_hits 0 c.entries 2147483647 0) c.entries
        (least_hits-lt 0 c.entries 2147483647 0 (length c.entries) (omega arith) some_entry) in
    (
      record c { entries = rest; current_size_bytes = c.current_size_bytes - gone.size },
      rw there refl,
      record {
        sized = omega (arith, h.sized);
        few = omega (arith, h.few);
        positive = h.positive;
        small = fits c.max_size_bytes h.small;
        held = h.held;
      },
      omega (arith, h.few),
      refl,
      refl,
      omega arith,
    )

append-IsAccounted :
    (c : Cache) (e : Entry) (reallocated : Bool)
    → IsAccounted c
    → length c.entries < c.max_entries
    → e.size ≤ c.max_size_bytes
    → IsAccounted (append c e reallocated).0
append-IsAccounted c e true h room fits = record {
  sized = omega (arith, h.sized, total_size-append c.entries e);
  few = omega (arith, length-append c.entries (e ∷ []));
  positive = h.positive;
  small = append-IsSmall c.max_size_bytes c.entries e h.small fits;
  held = h.held;
}
append-IsAccounted c e false h room fits = h

pub get-IsAccounted :
    (c : Cache) (key : String) (now : ℕ) → IsAccounted c → IsAccounted (get c key now).0
unfolding get
get-IsAccounted c key now h =
    let (sizes, counts) = look_up_total c.ttl_seconds key now c.entries in
    if_elim (λ (r : Cache × Option String). IsAccounted r.0) (not c.enabled) (λ off. h)
      (λ on. record {
        sized = omega (arith, h.sized);
        few = omega (arith, h.few);
        positive = h.positive;
        small = look_up-IsSmall c.ttl_seconds key now c.max_size_bytes c.entries h.small;
        held = h.held;
      })

pub remove-IsAccounted : (c : Cache) (key : String) → IsAccounted c → IsAccounted (remove c key).0
unfolding remove
remove-IsAccounted c key h = elim (take_key-cases key c.entries) [
  | inl nowhere ↦ rw nowhere h
  | inr (gone, rest, there, (sizes, counts, fits)) ↦ rw there (record {
    sized = omega (arith, h.sized);
    few = omega (arith, h.few);
    positive = h.positive;
    small = fits c.max_size_bytes h.small;
    held = h.held;
  })
]

pub clear-IsAccounted : (c : Cache) → IsAccounted c → IsAccounted (clear c)
unfolding clear total_size
clear-IsAccounted c h = record {
  sized = refl;
  few = omega arith;
  positive = h.positive;
  small = tt;
  held = h.held;
}

-- What an operation may answer: a cache whose account is right, with the same limit on its size.
abbrev pub Keeps : Cache → Option (Cache × Status) → Type 0
Keeps c o =
    (c' : Cache) × (status : Status) × (o ≡ some (c', status))
    × IsAccounted c'
    × (c'.max_size_bytes ≡ c.max_size_bytes)

append-Keeps :
    (c : Cache) (e : Entry) (reallocated : Bool)
    → IsAccounted c
    → length c.entries < c.max_entries
    → e.size ≤ c.max_size_bytes
    → Keeps c (some (append c e reallocated))
append-Keeps c e true h room fits = (_, _, refl, append-IsAccounted c e true h room fits, refl)
append-Keeps c e false h room fits = (_, _, refl, append-IsAccounted c e false h room fits, refl)

add_size-some :
    (current size : ℕ) → current + size ≤ 2147483647 → add_size current size ≡ some (current + size)
add_size-some current size h = ground arith

append_evicted-Keeps :
    (c c' : Cache) (e : Entry) (reallocated : Bool)
    → IsAccounted c'
    → length c'.entries < c'.max_entries
    → c'.max_size_bytes ≡ c.max_size_bytes
    → e.size ≤ c'.max_size_bytes
    → Keeps c (append_evicted c' e reallocated)
append_evicted-Keeps c c' e true h room same fits =
    rw (add_size-some c'.current_size_bytes e.size (sum_held c' e.size h fits))
      (_, _, refl, append-IsAccounted c' e true h room fits, same)
append_evicted-Keeps c c' e false h room same fits = (_, _, refl, h, same)

test_size-some :
    (c : Cache) (size : ℕ)
    → c.current_size_bytes + size ≤ 2147483647
    → (total : ℕ) × (test_size c size ≡ some total)
test_size-some c size h =
    if_elim (λ o. (total : ℕ) × (o ≡ some total)) (leb c.max_entries (length c.entries))
      (λ full. (0, refl)) (λ room. (_, add_size-some c.current_size_bytes size h))

has_entry :
    (max_entries max_size_bytes size : ℕ) (es : List Entry)
    → 0 < max_entries
    → size ≤ max_size_bytes
    → (leb max_entries (length es) || ltb max_size_bytes (total_size es + size)) ≡ true
    → 0 < length es
unfolding total_size
has_entry max_entries max_size_bytes size [] pos small full = absurd (ground arith)
has_entry max_entries max_size_bytes size (e ∷ es) pos small full = omega arith

pub put-Keeps :
    (c : Cache) (key value : String) (now : ℕ) (allocated reallocated : Bool)
    → IsAccounted c
    → entry_size key value ≤ c.max_size_bytes
    → Keeps c (put c key value now allocated reallocated)
unfolding put
put-Keeps c key value now allocated reallocated h small =
    let e = new_entry c key value now in
    let small' : e.size ≤ c.max_size_bytes = unfold new_entry in small in
    if_elim (Keeps c) (not c.enabled) (λ off. (_, _, refl, h, refl))
      (λ on.
        if_elim (Keeps c) (not allocated) (λ missing. (_, _, refl, h, refl))
          (λ given.
            if_elim (Keeps c) (is_full c e.size)
              (λ full.
                let (c', evicted, h', room, same_max, same, less) = evict-IsAccounted c h (
                  has_entry c.max_entries c.max_size_bytes e.size c.entries h.positive small' (
                    subst
                      (λ n.
                        (leb c.max_entries (length c.entries) || ltb c.max_size_bytes (n + e.size))
                        ≡ true)
                      h.sized full)) in
                let (total, tested) = test_size-some c e.size (sum_held c e.size h small') in
                rw (tested, evicted)
                  (append_evicted-Keeps c c' e reallocated h' (omega arith) same (omega arith)))
              (λ room. append-Keeps c e reallocated h (ground arith) small')))
