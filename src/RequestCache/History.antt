-- ===== src/RequestCache/History.antt =====
-- Sequences of calls of sirah/internal/cache/request_cache.c.
use sirah_c.Prelude.{
  ℕ, suc, ◌*◌, ◌≤◌, ◌<◌, ◌≡◌, ◌==◌, ◌||◌, true, false, arith, refl, subst, sym, Bool, Option, none,
  some, ◌>>=◌, List, [], ◌∷◌, String, All, if_elim, not,
}
use sirah_c.RequestCache.{
  Entry, Cache, Status, take_key, without, new, set_enabled, entry_size, put, get, remove, clear,
}
use sirah_c.RequestCache.Accounting.{
  total_size, IsAccounted, put-Keeps, get-IsAccounted, remove-IsAccounted, clear-IsAccounted,
}

pub data Call : Type 0 where
  puts : String → String → ℕ → Bool → Bool → Call
  gets : String → ℕ → Call
  removes : String → Call
  clears : Call
  sets_enabled : Bool → Call

abbrev after_put : Option (Cache × Status) → Option Cache
after_put none = none
after_put (some (c, status)) = some c

get-max_size_bytes :
    (c : Cache) (key : String) (now : ℕ) → (get c key now).0.max_size_bytes ≡ c.max_size_bytes
unfolding get
get-max_size_bytes c key now =
    if_elim (λ (r : Cache × Option String). r.0.max_size_bytes ≡ c.max_size_bytes) (not c.enabled)
      (λ off. refl) (λ on. refl)

without-max_size_bytes :
    (c : Cache) (taken : Option (Entry × List Entry))
    → (without c taken).0.max_size_bytes ≡ c.max_size_bytes
without-max_size_bytes c none = refl
without-max_size_bytes c (some (e, es)) = refl

remove-max_size_bytes :
    (c : Cache) (key : String) → (remove c key).0.max_size_bytes ≡ c.max_size_bytes
unfolding remove
remove-max_size_bytes c key = without-max_size_bytes c (take_key key c.entries)

set_enabled-IsAccounted :
    (c : Cache) (enabled : Bool) → IsAccounted c → IsAccounted (set_enabled c enabled)
unfolding set_enabled
set_enabled-IsAccounted c enabled h = record {
  sized = h.sized;
  few = h.few;
  positive = h.positive;
  small = h.small;
  held = h.held;
}

unfoldable pub step : Cache → Call → Option Cache
step c (puts key value now allocated reallocated) =
    after_put (put c key value now allocated reallocated)
step c (gets key now) = some (get c key now).0
step c (removes key) = some (remove c key).0
step c clears = some (clear c)
step c (sets_enabled enabled) = some (set_enabled c enabled)

unfoldable pub run : Cache → List Call → Option Cache
run c [] = some c
run c (k ∷ ks) = step c k >>= λ c'. run c' ks

-- What is put has an entry that fits an empty cache of the size.
abbrev pub Fits : ℕ → Call → Type 0
Fits max_size_bytes (puts key value now allocated reallocated) =
    entry_size key value ≤ max_size_bytes
Fits max_size_bytes _ = Unit

step-IsAccounted :
    (c : Cache) (k : Call)
    → IsAccounted c
    → Fits c.max_size_bytes k
    → (c' : Cache) × (step c k ≡ some c') × IsAccounted c' × (c'.max_size_bytes ≡ c.max_size_bytes)
unfolding step
step-IsAccounted c (puts key value now allocated reallocated) h small =
    let (c', status, e, h', same) = put-Keeps c key value now allocated reallocated h small in
    (c', rw e refl, h', same)
step-IsAccounted c (gets key now) h small =
    (_, refl, get-IsAccounted c key now h, get-max_size_bytes c key now)
step-IsAccounted c (removes key) h small =
    (_, refl, remove-IsAccounted c key h, remove-max_size_bytes c key)
step-IsAccounted c clears h small = (_, refl, clear-IsAccounted c h, unfold clear in refl)
step-IsAccounted c (sets_enabled enabled) h small =
    (_, refl, set_enabled-IsAccounted c enabled h, unfold set_enabled in refl)

run_from-IsAccounted :
    (c : Cache) (ks : List Call)
    → IsAccounted c
    → All (Fits c.max_size_bytes) ks
    → (c' : Cache) × (run c ks ≡ some c') × IsAccounted c'
unfolding run
run_from-IsAccounted c [] h fit = (c, refl, h)
run_from-IsAccounted c (k ∷ ks) h fit =
    let (c₁, e₁, h₁, same) = step-IsAccounted c k h fit.0 in
    let (c₂, e₂, h₂) =
      run_from-IsAccounted c₁ ks h₁ (subst (λ n. All (Fits n) ks) (sym same) fit.1) in
    (c₂, rw e₁ e₂, h₂)

new-IsAccounted :
    (max_entries max_size_bytes ttl_seconds : ℕ)
    → 0 < max_entries
    → 0 < max_size_bytes
    → 0 < ttl_seconds
    → suc max_entries * max_size_bytes ≤ 2147483647
    → (c : Cache) × (new max_entries max_size_bytes ttl_seconds ≡ some c)
      × IsAccounted c
      × (c.max_size_bytes ≡ max_size_bytes)
unfolding new total_size
new-IsAccounted max_entries max_size_bytes ttl_seconds entries bytes seconds held =
    let accepted : ((max_entries == 0) || (max_size_bytes == 0) || (ttl_seconds == 0)) ≡ false =
      ground arith in
    let c : Cache = record {
      entries = [];
      max_entries = max_entries;
      max_size_bytes = max_size_bytes;
      current_size_bytes = 0;
      ttl_seconds = ttl_seconds;
      enabled = true;
    } in
    (
      c,
      rw accepted refl,
      record { sized = refl; few = omega arith; positive = entries; small = tt; held = held },
      refl,
    )

-- Calls of any kind and in any order on a new cache, each of whose puts would fit it while it is empty,
-- never access memory behind the end of the array and never make a sum that an `int` does not hold,
-- where `(max_entries + 1) * max_size_bytes` is at most 2^31 - 1. They keep the size on record that of
-- the entries, and no more entries than the maximum.
pub run-IsAccounted :
    (max_entries max_size_bytes ttl_seconds : ℕ) (ks : List Call)
    → 0 < max_entries
    → 0 < max_size_bytes
    → 0 < ttl_seconds
    → suc max_entries * max_size_bytes ≤ 2147483647
    → All (Fits max_size_bytes) ks
    → (c : Cache) × (c' : Cache) × (new max_entries max_size_bytes ttl_seconds ≡ some c)
      × (run c ks ≡ some c')
      × IsAccounted c'
run-IsAccounted max_entries max_size_bytes ttl_seconds ks entries bytes seconds held fit =
    let (c, made, h, same) =
      new-IsAccounted max_entries max_size_bytes ttl_seconds entries bytes seconds held in
    let (c', done, h') =
      run_from-IsAccounted c ks h (subst (λ n. All (Fits n) ks) (sym same) fit) in
    (c, c', made, done, h')
