-- ===== src/RequestCache/Tests.antt =====
-- Runs of the model of sirah/internal/cache/request_cache.c on small inputs.
use sirah_c.Prelude.{◌≡◌, ◌≢◌, refl, true, none, some, List, [], ◌∷◌, arith}
use sirah_c.RequestCache.{Cache, Entry, ok, new, new_entry, entry_size, take_key, put, get}
use sirah_c.RequestCache.Accounting.{IsAccounted}
use sirah_c.RequestCache.History.{Call, puts, gets, removes, run, run-IsAccounted}
use sirah_c.RequestCache.Lookup.{get-put}

abbrev empty : Cache
empty = record {
  entries = [];
  max_entries = 2;
  max_size_bytes = 100;
  current_size_bytes = 0;
  ttl_seconds = 60;
  enabled = true;
}

abbrev pods : Entry
pods = record { key = "pods"; value = "[]"; created_at = 5; expires_at = 65; hits = 0; size = 46 }

abbrev one_entry : Cache
one_entry = record empty { entries = pods ∷ []; current_size_bytes = 46 }

hit : (get one_entry "pods" 20).1 ≡ some "[]"
unfolding get
hit = refl

old : (get one_entry "pods" 66).1 ≡ none
unfolding get
old = refl

abbrev calls : List Call
calls =
    puts "pods" "[]" 5 true true
    ∷ puts "nodes" "[]" 6 true true
    ∷ gets "pods" 7
    ∷ puts "jobs" "[]" 8 true true
    ∷ removes "pods"
    ∷ []

run-IsAccounted_example :
    (c : Cache) × (c' : Cache) × (new 2 100 60 ≡ some c) × (run c calls ≡ some c') × IsAccounted c'
unfolding entry_size
run-IsAccounted_example =
    run-IsAccounted 2 100 60 calls (omega arith) (omega arith) (omega arith) (omega arith)
      (omega arith, (omega arith, (tt, (omega arith, (tt, tt)))))

-- The size on record is as large as an `int` gets.
abbrev crowded : Cache
crowded = record empty { max_size_bytes = 2147483647; current_size_bytes = 2147483647 }

overflow : put crowded "nodes" "[]" 5 true true ≡ none
unfolding put new_entry
overflow = refl

get-put_example :
    (c' : Cache) × (put one_entry "nodes" "[1]" 10 true true ≡ some (c', ok))
    × ((get c' "nodes" 70).1 ≡ some "[1]")
unfolding entry_size take_key
get-put_example = get-put one_entry "nodes" "[1]" 10 70 refl refl refl (omega arith)

known : take_key "pods" one_entry.entries ≢ none
unfolding take_key
known = λ e. absurd (ground arith)
