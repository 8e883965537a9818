-- ===== src/RequestCache.antt =====
-- sirah/internal/cache/request_cache.{h,c}: the cache of responses. An argument is the object that a
-- pointer leads to (a null pointer is turned away before any state is read), and `now` is what
-- `time(NULL)` answers. The `int` amounts are not negative; those that are given, the hits of an entry and
-- the size of one entry stay within their types. `len` counts bytes, as `strlen` does. What `calloc` and `malloc`, and `realloc` answer is an argument, `true` for
-- success. `none` as the outcome of an operation is an access behind the end of the array, or a sum of
-- sizes that an `int` does not hold.
pub mod Accounting
pub mod History
pub mod Lookup
mod Tests
use Prim.Native.String.{len}
use sirah_c.Prelude.{
  ℕ, ◌+◌, ◌-◌, Bool, true, false, not, ◌||◌, Option, none, some, ◌>>=◌, List, [], ◌∷◌, ◌++◌, String,
  str_eq, ltb, leb, ◌==◌, if◌then◌else◌, length, is_some,
}

pub data Status : Type 0 where
  ok error : Status

pub record Entry : Type 0 where
  pub key : String
  pub value : String
  pub created_at : ℕ
  pub expires_at : ℕ
  pub hits : ℕ
  pub size : ℕ

pub record Cache : Type 0 where
  pub entries : List Entry
  pub max_entries : ℕ
  pub max_size_bytes : ℕ
  pub current_size_bytes : ℕ
  pub ttl_seconds : ℕ
  pub enabled : Bool

-- `none` is a null pointer.
unfoldable pub new : ℕ → ℕ → ℕ → Option Cache
new max_entries max_size_bytes ttl_seconds =
    if (max_entries == 0) || (max_size_bytes == 0) || (ttl_seconds == 0)
    then none
    else some (record {
      entries = [];
      max_entries = max_entries;
      max_size_bytes = max_size_bytes;
      current_size_bytes = 0;
      ttl_seconds = ttl_seconds;
      enabled = true;
    })

unfoldable pub set_enabled : Cache → Bool → Cache
set_enabled c enabled = record c { enabled = enabled }

-- `sizeof(k8s_cache_entry_t)` is 40 where pointers and `time_t` have 8 bytes.
unfoldable pub entry_size : String → String → ℕ
entry_size key value = len key + len value + 40

unfoldable pub new_entry : Cache → String → String → ℕ → Entry
unfolding entry_size
new_entry c key value now = record {
  key = key;
  value = value;
  created_at = now;
  expires_at = now + c.ttl_seconds;
  hits = 0;
  size = entry_size key value;
}

unfoldable pub is_expired : Entry → ℕ → ℕ → Bool
is_expired e ttl_seconds now = ltb ttl_seconds (now - e.created_at)

-- The search for the entry to go, at index `i`, with the fewest hits yet and their index.
unfoldable pub least_hits : ℕ → List Entry → ℕ → ℕ → ℕ
least_hits i [] min_hits min_idx = min_idx
least_hits i (e ∷ es) min_hits min_idx =
    let lower = least_hits (i + 1) es e.hits i in
    let same = least_hits (i + 1) es min_hits min_idx in if ltb e.hits min_hits then lower else same

abbrev pub keep_entry : Entry → Option (Entry × List Entry) → Option (Entry × List Entry)
keep_entry e none = none
keep_entry e (some (gone, es)) = some (gone, e ∷ es)

-- The entry at an index, and the others moved together.
unfoldable pub take_at : ℕ → List Entry → Option (Entry × List Entry)
take_at i [] = none
take_at i (e ∷ es) =
    let later = keep_entry e (take_at (i - 1) es) in if i == 0 then some (e, es) else later

-- The size of an entry that is in the cache is part of `current_size_bytes`.
unfoldable pub evict : Cache → Option Cache
unfolding least_hits take_at
evict c = do
  (gone, es) ← take_at (least_hits 0 c.entries 2147483647 0) c.entries
  some (record c { entries = es; current_size_bytes = c.current_size_bytes - gone.size })

abbrev pub is_full : Cache → ℕ → Bool
is_full c size =
    leb c.max_entries (length c.entries) || ltb c.max_size_bytes (c.current_size_bytes + size)

abbrev pub append : Cache → Entry → Bool → Cache × Status
append c e reallocated =
    if reallocated
    then (
      record c {
        entries = c.entries ++ e ∷ [];
        current_size_bytes = c.current_size_bytes + e.size;
      },
      ok,
    )
    else (c, error)

-- A sum of sizes is made, if an `int` holds it.
abbrev pub add_size : ℕ → ℕ → Option ℕ
add_size current size = if ltb 2147483647 (current + size) then none else some (current + size)

-- The sum of the test whether the cache is full, which is made where there is room for an entry.
abbrev pub test_size : Cache → ℕ → Option ℕ
test_size c size =
    if leb c.max_entries (length c.entries) then some 0 else add_size c.current_size_bytes size

-- The end of a put after an eviction: the sum is made where the array grows.
abbrev pub append_evicted : Cache → Entry → Bool → Option (Cache × Status)
append_evicted c e reallocated =
    if reallocated
    then (do total ← add_size c.current_size_bytes e.size; some (append c e true))
    else some (append c e false)

-- Where the cache is not full, the sum is no more than `max_size_bytes`, which is an `int`.
unfoldable pub put : Cache → String → String → ℕ → Bool → Bool → Option (Cache × Status)
put c key value now allocated reallocated =
    if not c.enabled
    then some (c, ok)
    else (if not allocated
        then some (c, error)
        else (if is_full c (new_entry c key value now).size
            then (do
              total ← test_size c (new_entry c key value now).size
              c' ← evict c
              append_evicted c' (new_entry c key value now) reallocated)
            else some (append c (new_entry c key value now) reallocated)))

-- The first entry of the key: the entries after the lookup, the size that they lose, and the value.
unfoldable pub look_up : ℕ → String → ℕ → List Entry → List Entry × ℕ × Option String
unfolding is_expired
look_up ttl_seconds key now [] = ([], 0, none)
look_up ttl_seconds key now (e ∷ es) =
    let (es', lost, value) = look_up ttl_seconds key now es in
    if not (str_eq e.key key)
    then (e ∷ es', lost, value)
    else (if is_expired e ttl_seconds now
        then (es, e.size, none)
        else (record e { hits = e.hits + 1 } ∷ es, 0, some e.value))

-- `none` as the value is the answer -1.
unfoldable pub get : Cache → String → ℕ → Cache × Option String
unfolding look_up
get c key now =
    if not c.enabled
    then (c, none)
    else (let (es, lost, value) = look_up c.ttl_seconds key now c.entries in
        (record c { entries = es; current_size_bytes = c.current_size_bytes - lost }, value))

unfoldable pub contains : Cache → String → ℕ → Cache × Bool
unfolding get
contains c key now = let (c', value) = get c key now in (c', is_some value)

-- The first entry of the key, and the others.
unfoldable pub take_key : String → List Entry → Option (Entry × List Entry)
take_key key [] = none
take_key key (e ∷ es) =
    let later = keep_entry e (take_key key es) in if str_eq e.key key then some (e, es) else later

abbrev pub without : Cache → Option (Entry × List Entry) → Cache × Status
without c none = (c, error)
without c (some (e, es)) =
    (record c { entries = es; current_size_bytes = c.current_size_bytes - e.size }, ok)

unfoldable pub remove : Cache → String → Cache × Status
unfolding take_key
remove c key = without c (take_key key c.entries)

unfoldable pub clear : Cache → Cache
clear c = record c { entries = []; current_size_bytes = 0 }

unfoldable pub total_hits : List Entry → ℕ
total_hits [] = 0
total_hits (e ∷ es) = e.hits + total_hits es

unfoldable pub get_hits : Cache → ℕ
unfolding total_hits
get_hits c = total_hits c.entries
